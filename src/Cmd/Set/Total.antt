-- ===== src/Cmd/Set/Total.antt =====
-- set_state over any registers.
use mathlib.Core.Bool.{false≢true}
use haier_controller.Prelude.{ℕ, ◌≡◌, refl, Bool, true, false, List, some, arith, length, [], ◌∷◌}
use haier_controller.Cmd.Types.{reply, HeatpumpState}
use haier_controller.Cmd.Set.{state_command, set_state}
use haier_controller.Cmd.Set.Words.{store6_lem}

abbrev pub is_request : HeatpumpState → Bool
is_request HeatpumpState.invalid = false
is_request _ = true

of_six :
    (a b c d e f : ℕ) (out : List ℕ) (target : HeatpumpState)
    → length out ≡ 6
    → is_request target ≡ true
    → (sent : List ℕ) × (set_state (some (a ∷ b ∷ c ∷ d ∷ e ∷ f ∷ [])) 6 target (some out)
        ≡ reply sent)
      × (length sent ≡ 6)
unfolding set_state state_command
of_six a b c d e f out HeatpumpState.invalid room h = absurd (false≢true h)
of_six a b c d e f out target room h = (_, store6_lem out _ _ _ _ _ _ room, refl)

pub set_state-total :
    (cur out : List ℕ) (target : HeatpumpState)
    → length cur ≡ 6
    → length out ≡ 6
    → is_request target ≡ true
    → (sent : List ℕ) × (set_state (some cur) 6 target (some out) ≡ reply sent) × (length sent ≡ 6)
set_state-total (a ∷ b ∷ c ∷ d ∷ e ∷ f ∷ []) out target six room h =
    of_six a b c d e f out target room h
set_state-total _ out target six room h = absurd (omega arith)
