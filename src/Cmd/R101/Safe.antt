-- ===== src/Cmd/R101/Safe.antt =====
-- The getters over the block from 101 on, over any registers, counts and pointers.
use haier_controller.Prelude.{
  ℕ, ◌≡◌, refl, true, List, [], ◌∷◌, Option, none, some, arith, ◌!=◌, length,
}
use haier_controller.Floats.{Floats}
use haier_controller.Cmd.Types.{reply, refused, HeatpumpStatus}
use haier_controller.Cmd.R101.{
  get_state, get_ch_temp, get_dhw_compensation, get_dhw_target_temp, get_temp_compensation,
}

module _ (F : Floats) (regs : List ℕ) where
  open F use {Float}

  -- Each getter answers with a value.
  pub record Answered : Type 0 where
    pub state :
        (old : HeatpumpStatus) → (v : HeatpumpStatus) × (get_state regs 6 (some old) ≡ reply v)
    pub ch_temp : (old : Float) → (v : Float) × (get_ch_temp F regs 6 (some old) ≡ reply v)
    pub dhw_compensation :
        (old : Float) → (v : Float) × (get_dhw_compensation F regs 6 (some old) ≡ reply v)
    pub dhw_target_temp :
        (old : Float) → (v : Float) × (get_dhw_target_temp F regs 6 (some old) ≡ reply v)
    pub temp_compensation :
        (old : Float) → (v : Float) × (get_temp_compensation F regs 6 (some old) ≡ reply v)

  -- Each getter answers with -EINVAL, and leaves what its pointer refers to alone.
  pub record TurnedDown (count : ℕ) : Type 0 where
    pub state : (old : Option HeatpumpStatus) → get_state regs count old ≡ refused old
    pub ch_temp : (old : Option Float) → get_ch_temp F regs count old ≡ refused old
    pub dhw_compensation :
        (old : Option Float) → get_dhw_compensation F regs count old ≡ refused old
    pub dhw_target_temp : (old : Option Float) → get_dhw_target_temp F regs count old ≡ refused old
    pub temp_compensation :
        (old : Option Float) → get_temp_compensation F regs count old ≡ refused old

  -- So does each getter with the right count and a NULL pointer.
  pub record NullRefused : Type 0 where
    pub state : get_state regs 6 none ≡ refused none
    pub ch_temp : get_ch_temp F regs 6 none ≡ refused none
    pub dhw_compensation : get_dhw_compensation F regs 6 none ≡ refused none
    pub dhw_target_temp : get_dhw_target_temp F regs 6 none ≡ refused none
    pub temp_compensation : get_temp_compensation F regs 6 none ≡ refused none

answered : (F : Floats) (r0 r1 r2 r3 r4 r5 : ℕ) → Answered F (r0 ∷ r1 ∷ r2 ∷ r3 ∷ r4 ∷ r5 ∷ [])
unfolding get_state get_ch_temp get_dhw_compensation get_dhw_target_temp get_temp_compensation
answered F r0 r1 r2 r3 r4 r5 = record {
  state = λ old. (_, refl);
  ch_temp = λ old. (_, refl);
  dhw_compensation = λ old. (_, refl);
  dhw_target_temp = λ old. (_, refl);
  temp_compensation = λ old. (_, refl);
}

-- Over any six registers, the five getters over the block from 101 on, called with the count 6
-- and a pointer that is not NULL, return success and a value, without an access outside the
-- array.
pub r101-Answered : (F : Floats) (regs : List ℕ) → length regs ≡ 6 → Answered F regs
r101-Answered F (r0 ∷ r1 ∷ r2 ∷ r3 ∷ r4 ∷ r5 ∷ []) h = answered F r0 r1 r2 r3 r4 r5
r101-Answered F _ h = absurd (omega arith)

-- With a count other than 6, the five getters over the block from 101 on return -EINVAL and leave
-- what the pointer refers to alone, and with the count 6 and a NULL pointer they return -EINVAL;
-- none of them reads the array.
pub r101-TurnedDown :
    (F : Floats) (regs : List ℕ) (count : ℕ)
    → (count != 6) ≡ true
    → TurnedDown F regs count × NullRefused F regs
unfolding get_state get_ch_temp get_dhw_compensation get_dhw_target_temp get_temp_compensation
r101-TurnedDown F regs count h = (
  record {
    state = λ old. rw h;
    ch_temp = λ old. rw h;
    dhw_compensation = λ old. rw h;
    dhw_target_temp = λ old. rw h;
    temp_compensation = λ old. rw h;
  },
  record {
    state = refl;
    ch_temp = refl;
    dhw_compensation = refl;
    dhw_target_temp = refl;
    temp_compensation = refl;
  },
)
