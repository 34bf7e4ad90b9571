-- ===== src/Cmd/R141/Frame.antt =====
-- An independent description of the block from register 141 on: what the heat pump reports, and the
-- words in which it travels. The bits that no getter reads are `spare`.
use haier_controller.Prelude.{
  ℕ, ℤ, pos, negsuc, ◌+◌, ◌-◌, ◌*◌, ◌/◌, ◌%◌, ◌<◌, ◌≡◌, Bool, true, false, List, [], ◌∷◌, some,
}
use haier_controller.Floats.{Floats}
use haier_controller.Cmd.Types.{reply, HeatpumpState, HeatpumpThreeway, TiToInfo}
use haier_controller.Cmd.Fields.{nib, low, word}
use haier_controller.Cmd.Bytes.{IsSigned12}
use haier_controller.Cmd.R141.{
  get_3way_state, get_dhw_temp, get_error, get_heater_state, get_pump_state, get_thi_tho_info,
  get_twi_two_info,
}

-- Temperatures in tenths of a degree; `twi` and `two` have no sign.
pub record Frame : Type 0 where
  pub valve : HeatpumpThreeway
  pub error : ℕ
  pub heater : Bool
  pub pump : Bool
  pub twi : ℕ
  pub two : ℕ
  pub thi : ℤ
  pub tho : ℤ
  pub dhw_temp : ℤ
  pub spare : ℕ → ℕ

abbrev pub IsSigned16 : ℤ → Type 0
IsSigned16 (pos n) = n < 32768
IsSigned16 (negsuc n) = n < 32768

abbrev pub sixteen : ℤ → ℕ
sixteen (pos n) = n
sixteen (negsuc n) = 65535 - n

-- A valve position that is sent: `invalid` is not.
abbrev pub IsSent : HeatpumpThreeway → Type 0
IsSent HeatpumpThreeway.invalid = ⊥
IsSent _ = Unit

pub record IsFrame (f : Frame) : Type 0 where
  pub valve : IsSent f.valve
  pub error : f.error < 256
  pub twi : f.twi < 4096
  pub two : f.two < 4096
  pub thi : IsSigned12 f.thi
  pub tho : IsSigned12 f.tho
  pub dhw_temp : IsSigned16 f.dhw_temp
  pub spare_bit : (f.spare 0 < 2) × (f.spare 1 < 2)
  pub spare_byte : (f.spare 3 < 256) × (f.spare 5 < 256)

-- The bit of each position; bits 8, 12, 14 and 15 are spare.
abbrev pub valve_bits : HeatpumpThreeway → ℕ
valve_bits HeatpumpThreeway.dhw = 512
valve_bits HeatpumpThreeway.ch = 1024
valve_bits HeatpumpThreeway.antifreeze = 2048
valve_bits HeatpumpThreeway.defrost = 8192
valve_bits _ = 0

abbrev pub flag : Bool → ℕ
flag true = 1
flag false = 0

abbrev pub words : Frame → List ℕ
words f =
    (f.spare 2 * 16384 + f.spare 1 * 4096 + f.spare 0 * 256 + valve_bits f.valve + f.error)
    ∷ f.spare 10
    ∷ f.spare 11
    ∷ (f.spare 4 * 1024 + flag f.pump * 512 + flag f.heater * 256 + f.spare 3)
    ∷ f.spare 12
    ∷ word (f.spare 6) (f.two / 256 * 16 + f.twi / 256)
    ∷ word (f.twi % 256) (f.two % 256)
    ∷ word (nib f.tho * 16 + nib f.thi) (low f.thi)
    ∷ word (low f.tho) (f.spare 5)
    ∷ f.spare 13
    ∷ f.spare 14
    ∷ f.spare 15
    ∷ f.spare 16
    ∷ sixteen f.dhw_temp
    ∷ f.spare 17
    ∷ f.spare 18
    ∷ []

abbrev pub on_off : Bool → HeatpumpState
on_off true = HeatpumpState.on
on_off false = HeatpumpState.off

module _ (F : Floats) where
  open F use {Float, of_int, literal, div}

  abbrev pub tenths : ℤ → Float
  tenths z = div (of_int z) (literal 10 0)

  -- What the seven getters say of the registers `regs`, if they report the frame `f`.
  pub record Reports (f : Frame) (regs : List ℕ) : Type 0 where
    pub threeway : get_3way_state regs 16 ≡ some f.valve
    pub error : (old : ℕ) → get_error regs 16 (some old) ≡ reply f.error
    pub heater_state : get_heater_state regs 16 ≡ some (on_off f.heater)
    pub pump_state : get_pump_state regs 16 ≡ some (on_off f.pump)
    pub dhw_temp : (old : Float) → get_dhw_temp F regs 16 (some old) ≡ reply (tenths f.dhw_temp)
    pub thi_tho_info :
        (old : TiToInfo Float)
        → get_thi_tho_info F regs 16 (some old)
          ≡ reply (record { ti = tenths f.thi; to = tenths f.tho })
    pub twi_two_info :
        (old : TiToInfo Float)
        → get_twi_two_info F regs 16 (some old)
          ≡ reply (record { ti = tenths (pos f.twi); to = tenths (pos f.two) })
