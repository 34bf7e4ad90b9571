-- ===== src/Cmd/R141/Safe.antt =====
-- The getters over the block from 141 on, over any registers, counts and pointers.
use haier_controller.Prelude.{
  ℕ, ◌≡◌, refl, true, List, [], ◌∷◌, Option, none, some, arith, ◌!=◌, length,
}
use haier_controller.Floats.{Floats}
use haier_controller.Cmd.Types.{reply, refused, HeatpumpState, HeatpumpThreeway, TiToInfo}
use haier_controller.Cmd.R141.{
  get_error, get_dhw_temp, get_thi_tho_info, get_twi_two_info, get_3way_state, get_heater_state,
  get_pump_state,
}

module _ (F : Floats) (regs : List ℕ) where
  open F use {Float}

  -- Each getter answers with a value.
  pub record Answered : Type 0 where
    pub error : (old : ℕ) → (v : ℕ) × (get_error regs 16 (some old) ≡ reply v)
    pub dhw_temp : (old : Float) → (v : Float) × (get_dhw_temp F regs 16 (some old) ≡ reply v)
    pub thi_tho_info :
        (old : TiToInfo Float)
        → (v : TiToInfo Float) × (get_thi_tho_info F regs 16 (some old) ≡ reply v)
    pub twi_two_info :
        (old : TiToInfo Float)
        → (v : TiToInfo Float) × (get_twi_two_info F regs 16 (some old) ≡ reply v)
    pub threeway : (v : HeatpumpThreeway) × (get_3way_state regs 16 ≡ some v)
    pub heater_state : (v : HeatpumpState) × (get_heater_state regs 16 ≡ some v)
    pub pump_state : (v : HeatpumpState) × (get_pump_state regs 16 ≡ some v)

  -- Each getter answers with -EINVAL, and leaves what its pointer refers to alone.
  pub record TurnedDown (count : ℕ) : Type 0 where
    pub error : (old : Option ℕ) → get_error regs count old ≡ refused old
    pub dhw_temp : (old : Option Float) → get_dhw_temp F regs count old ≡ refused old
    pub thi_tho_info :
        (old : Option (TiToInfo Float)) → get_thi_tho_info F regs count old ≡ refused old
    pub twi_two_info :
        (old : Option (TiToInfo Float)) → get_twi_two_info F regs count old ≡ refused old
    pub threeway : get_3way_state regs count ≡ some HeatpumpThreeway.invalid
    pub heater_state : get_heater_state regs count ≡ some HeatpumpState.invalid
    pub pump_state : get_pump_state regs count ≡ some HeatpumpState.invalid

  -- So does each getter with the right count and a NULL pointer.
  pub record NullRefused : Type 0 where
    pub error : get_error regs 16 none ≡ refused none
    pub dhw_temp : get_dhw_temp F regs 16 none ≡ refused none
    pub thi_tho_info : get_thi_tho_info F regs 16 none ≡ refused none
    pub twi_two_info : get_twi_two_info F regs 16 none ≡ refused none

answered :
    (F : Floats) (r0 r1 r2 r3 r4 r5 r6 r7 r8 r9 r10 r11 r12 r13 r14 r15 : ℕ)
    → Answered F
        (r0 ∷ r1 ∷ r2 ∷ r3 ∷ r4 ∷ r5 ∷ r6 ∷ r7 ∷ r8 ∷ r9 ∷ r10 ∷ r11 ∷ r12 ∷ r13 ∷ r14 ∷ r15 ∷ [])
unfolding get_error get_dhw_temp get_thi_tho_info get_twi_two_info get_3way_state get_heater_state
    get_pump_state
answered F r0 r1 r2 r3 r4 r5 r6 r7 r8 r9 r10 r11 r12 r13 r14 r15 = record {
  error = λ old. (_, refl);
  dhw_temp = λ old. (_, refl);
  thi_tho_info = λ old. (_, refl);
  twi_two_info = λ old. (_, refl);
  threeway = (_, refl);
  heater_state = (_, refl);
  pump_state = (_, refl);
}

-- Over any 16 registers, the seven getters over the block from 141 on, called with the count 16
-- and a pointer that is not NULL where they take one, return a value, with success, without an
-- access outside the array.
pub r141-Answered : (F : Floats) (regs : List ℕ) → length regs ≡ 16 → Answered F regs
r141-Answered F
      (r0 ∷ r1 ∷ r2 ∷ r3 ∷ r4 ∷ r5 ∷ r6 ∷ r7 ∷ r8 ∷ r9 ∷ r10 ∷ r11 ∷ r12 ∷ r13 ∷ r14 ∷ r15 ∷ []) h =
    answered F r0 r1 r2 r3 r4 r5 r6 r7 r8 r9 r10 r11 r12 r13 r14 r15
r141-Answered F _ h = absurd (omega arith)

-- With a count other than 16, the getters over the block from 141 on return -EINVAL, or `invalid`
-- where they return an enumerator, and leave what the pointer refers to alone; with the count 16
-- and a NULL pointer those that take one return -EINVAL; none of them reads the array.
pub r141-TurnedDown :
    (F : Floats) (regs : List ℕ) (count : ℕ)
    → (count != 16) ≡ true
    → TurnedDown F regs count × NullRefused F regs
unfolding get_error get_dhw_temp get_thi_tho_info get_twi_two_info get_3way_state get_heater_state
    get_pump_state
r141-TurnedDown F regs count h = (
  record {
    error = λ old. rw h;
    dhw_temp = λ old. rw h;
    thi_tho_info = λ old. rw h;
    twi_two_info = λ old. rw h;
    threeway = rw h;
    heater_state = rw h;
    pump_state = rw h;
  },
  record { error = refl; dhw_temp = refl; thi_tho_info = refl; twi_two_info = refl },
)
