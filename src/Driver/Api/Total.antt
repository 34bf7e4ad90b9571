-- ===== src/Driver/Api/Total.antt =====
-- The readers of the API, over any registers.
use haier_controller.Prelude.{ℕ, ◌≡◌, refl, List, [], ◌∷◌, some, arith, length}
use haier_controller.Floats.{Floats}
use haier_controller.Cmd.Types.{
  Code, reply, HeatpumpMode, HeatpumpStatus, HeatpumpThreeway, TiToInfo,
}
use haier_controller.Cmd.R101.Safe as Safe101
use haier_controller.Cmd.R141.Safe as Safe141
use haier_controller.Cmd.R201.{get_mode}
use haier_controller.Driver.State.{Regs, IsRegs}
use haier_controller.Driver.Api.{
  get_3way, read_mode, read_pump_status, read_ch_temp, read_dhw_temp, read_dhw_target_temp,
  read_twi_two,
}

get_mode-one : (regs : List ℕ) → length regs ≡ 1 → (m : HeatpumpMode) × (get_mode regs 1 ≡ some m)
unfolding get_mode
get_mode-one (v ∷ []) e = (_, refl)
get_mode-one [] e = absurd (omega arith)
get_mode-one (v ∷ w ∷ regs) e = absurd (omega arith)

module _ (F : Floats) where
  open F use {Float}

  -- The readers that the status is made of return a value.
  pub record AllAnswer (r : Regs) : Type 0 where
    pub threeway : (v : HeatpumpThreeway) × (get_3way r ≡ some v)
    pub mode : (m : HeatpumpMode) × (read_mode r ≡ some m)
    pub ch_temp : (temp : Float) → (v : Float) × (read_ch_temp F r temp ≡ some v)
    pub dhw_temp : (temp : Float) → (v : Float) × (read_dhw_temp F r temp ≡ some v)
    pub dhw_target_temp : (temp : Float) → (v : Float) × (read_dhw_target_temp F r temp ≡ some v)
    pub twi_two :
        (info : TiToInfo Float)
        → (v : TiToInfo Float) × (read_twi_two F r info ≡ some (Code.success, v))
    pub status :
        (stat : HeatpumpStatus) → (v : HeatpumpStatus) × (read_pump_status r (some stat) ≡ reply v)

  pub api-AllAnswer : (r : Regs) → IsRegs r → AllAnswer r
  unfolding get_3way read_mode read_ch_temp read_dhw_temp read_dhw_target_temp read_twi_two
      read_pump_status
  api-AllAnswer r ok =
      let a = Safe101.r101-Answered F r.r101 ok.six in
      let b = Safe141.r141-Answered F r.r141 ok.sixteen in
      record {
        threeway = b.threeway;
        mode = get_mode-one r.r201 ok.one;
        ch_temp = λ temp. let (v, e) = a.ch_temp temp in (v, rw e refl);
        dhw_temp = λ temp. let (v, e) = b.dhw_temp temp in (v, rw e refl);
        dhw_target_temp = λ temp. let (v, e) = a.dhw_target_temp temp in (v, rw e refl);
        twi_two = λ info. let (v, e) = b.twi_two_info info in (v, rw e refl);
        status = λ stat. a.state stat;
      }
