-- ===== src/Cmd/R201/Frame.antt =====
-- The block of register 201: the values that the heat pump reports for its modes, and get_mode of
-- haier_cmd.c over them.
use haier_controller.Prelude.{ℕ, suc, ◌≡◌, refl, [], ◌∷◌, some, arith}
use haier_controller.Cmd.Types.{HeatpumpMode}
use haier_controller.Cmd.R201.{get_mode}

-- The mode that the heat pump means by a value: 0, 1 and 2 are its modes, and the others none.
pub data IsMode : ℕ → HeatpumpMode → Type 0 where
  means_eco : IsMode 0 HeatpumpMode.eco
  means_quiet : IsMode 1 HeatpumpMode.quiet
  means_turbo : IsMode 2 HeatpumpMode.turbo
  means_none : (n : ℕ) → IsMode (suc (suc (suc n))) HeatpumpMode.invalid

pub get_mode-word : {v : ℕ} {m : HeatpumpMode} → IsMode v m → get_mode (v ∷ []) 1 ≡ some m
unfolding get_mode
get_mode-word means_eco = refl
get_mode-word means_quiet = refl
get_mode-word means_turbo = refl
get_mode-word (means_none n) = ground arith
