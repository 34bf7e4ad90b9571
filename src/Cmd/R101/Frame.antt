-- ===== src/Cmd/R101/Frame.antt =====
-- An independent description of the block from register 101 on: the settings that the heat pump
-- reports, and the words in which they travel. The bits that no getter reads are `spare`.
use haier_controller.Prelude.{
  ℕ, ℤ, pos, negsuc, ◌+◌, ◌-◌, ◌*◌, ◌<◌, ◌≡◌, Bool, true, false, List, [], ◌∷◌, some,
}
use haier_controller.Floats.{Floats}
use haier_controller.Cmd.Types.{reply, HeatpumpStatus, HeatpumpMode}
use haier_controller.Cmd.R101.{
  get_state, get_ch_temp, get_dhw_compensation, get_dhw_target_temp, get_temp_compensation,
}

-- Temperatures and compensations in half degrees.
pub record Settings : Type 0 where
  pub is_on : Bool
  pub cooling : Bool
  pub heating : Bool
  pub has_tank : Bool
  pub ch_temp : ℕ
  pub temp_comp : ℤ
  pub dhw_target : ℤ
  pub dhw_comp : ℤ
  pub spare : ℕ → ℕ

-- A compensation is sent with an offset of 30, in a byte.
abbrev pub IsOffset : ℤ → Type 0
IsOffset (pos n) = n < 226
IsOffset (negsuc n) = n < 30

abbrev pub offset : ℤ → ℕ
offset (pos n) = n + 30
offset (negsuc n) = 29 - n

abbrev pub IsSigned8 : ℤ → Type 0
IsSigned8 (pos n) = n < 128
IsSigned8 (negsuc n) = n < 128

abbrev pub eight : ℤ → ℕ
eight (pos n) = n
eight (negsuc n) = 255 - n

pub record IsSettings (s : Settings) : Type 0 where
  pub ch_temp : s.ch_temp < 256
  pub temp_comp : IsOffset s.temp_comp
  pub dhw_target : IsSigned8 s.dhw_target
  pub dhw_comp : IsOffset s.dhw_comp
  pub middle : s.spare 0 < 16

abbrev pub flag : Bool → ℕ
flag true = 1
flag false = 0

abbrev pub status_byte : Settings → ℕ
status_byte s =
    flag s.is_on + 2 * flag s.cooling + 4 * flag s.heating + 8 * s.spare 0 + 128 * flag s.has_tank

abbrev pub words : Settings → List ℕ
words s =
    (s.spare 1 * 256 + status_byte s)
    ∷ (s.ch_temp * 256 + offset s.temp_comp)
    ∷ s.spare 2
    ∷ s.spare 3
    ∷ s.spare 4
    ∷ (eight s.dhw_target * 256 + offset s.dhw_comp)
    ∷ []

-- Only one of the two bits names a mode; both, or neither, name none.
abbrev pub mode_of : Bool → Bool → HeatpumpMode
mode_of true false = HeatpumpMode.cool
mode_of false true = HeatpumpMode.heat
mode_of true true = HeatpumpMode.mode_none
mode_of false false = HeatpumpMode.mode_none

module _ (F : Floats) where
  open F use {Float, of_int, literal, div}

  abbrev pub halves : ℤ → Float
  halves z = div (of_int z) (literal 2 0)

  -- What the five getters say of the registers `regs`, if they report the settings `s`.
  pub record Reports (s : Settings) (regs : List ℕ) : Type 0 where
    pub state :
        (old : HeatpumpStatus)
        → get_state regs 6 (some old)
          ≡ reply (record {
            is_on = s.is_on;
            has_tank = s.has_tank;
            heat_mode = mode_of s.cooling s.heating;
          })
    pub ch_temp : (old : Float) → get_ch_temp F regs 6 (some old) ≡ reply (halves (pos s.ch_temp))
    pub temp_compensation :
        (old : Float) → get_temp_compensation F regs 6 (some old) ≡ reply (halves s.temp_comp)
    pub dhw_target_temp :
        (old : Float) → get_dhw_target_temp F regs 6 (some old) ≡ reply (halves s.dhw_target)
    pub dhw_compensation :
        (old : Float) → get_dhw_compensation F regs 6 (some old) ≡ reply (halves s.dhw_comp)
