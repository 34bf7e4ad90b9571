-- ===== src/Cmd/R241/Safe.antt =====
-- The getters over the block from 241 on, over any registers, counts and pointers.
use haier_controller.Prelude.{
  ℕ, ◌≡◌, refl, true, List, [], ◌∷◌, Option, none, some, arith, ◌!=◌, length,
}
use haier_controller.Floats.{Floats}
use haier_controller.Cmd.Types.{
  reply, refused, ArchErrors, CompressorInfo, FansInfo, PdPsInfo, TdTsInfo, TsatInfo,
}
use haier_controller.Cmd.R241.{
  get_arch_errors, get_eev_level, get_fans_rpm, get_last_error, get_comp_info, get_firmware_version,
  get_pd_ps_info, get_tao, get_tdef, get_td_ts_info, get_tsat_pd_info, get_tsat_ps_info,
}

module _ (F : Floats) (regs : List ℕ) where
  open F use {Float}

  -- Each getter answers with a value.
  pub record Answered : Type 0 where
    pub arch_errors :
        (old : ArchErrors) → (v : ArchErrors) × (get_arch_errors regs 22 (some old) ≡ reply v)
    pub eev_level : (old : ℕ) → (v : ℕ) × (get_eev_level regs 22 (some old) ≡ reply v)
    pub fans_rpm : (old : FansInfo) → (v : FansInfo) × (get_fans_rpm regs 22 (some old) ≡ reply v)
    pub last_error : (old : ℕ) → (v : ℕ) × (get_last_error regs 22 (some old) ≡ reply v)
    pub comp_info :
        (old : CompressorInfo Float)
        → (v : CompressorInfo Float) × (get_comp_info F regs 22 (some old) ≡ reply v)
    pub firmware_version :
        (old : Float) → (v : Float) × (get_firmware_version F regs 22 (some old) ≡ reply v)
    pub pd_ps_info :
        (old : PdPsInfo Float)
        → (v : PdPsInfo Float) × (get_pd_ps_info F regs 22 (some old) ≡ reply v)
    pub tao : (old : Float) → (v : Float) × (get_tao F regs 22 (some old) ≡ reply v)
    pub tdef : (old : Float) → (v : Float) × (get_tdef F regs 22 (some old) ≡ reply v)
    pub td_ts_info :
        (old : TdTsInfo Float)
        → (v : TdTsInfo Float) × (get_td_ts_info F regs 22 (some old) ≡ reply v)
    pub tsat_pd_info :
        (old : TsatInfo Float)
        → (v : TsatInfo Float) × (get_tsat_pd_info F regs 22 (some old) ≡ reply v)
    pub tsat_ps_info :
        (old : TsatInfo Float)
        → (v : TsatInfo Float) × (get_tsat_ps_info F regs 22 (some old) ≡ reply v)

  -- Each getter answers with -EINVAL, and leaves what its pointer refers to alone.
  pub record TurnedDown (count : ℕ) : Type 0 where
    pub arch_errors : (old : Option ArchErrors) → get_arch_errors regs count old ≡ refused old
    pub eev_level : (old : Option ℕ) → get_eev_level regs count old ≡ refused old
    pub fans_rpm : (old : Option FansInfo) → get_fans_rpm regs count old ≡ refused old
    pub last_error : (old : Option ℕ) → get_last_error regs count old ≡ refused old
    pub comp_info :
        (old : Option (CompressorInfo Float)) → get_comp_info F regs count old ≡ refused old
    pub firmware_version :
        (old : Option Float) → get_firmware_version F regs count old ≡ refused old
    pub pd_ps_info : (old : Option (PdPsInfo Float)) → get_pd_ps_info F regs count old ≡ refused old
    pub tao : (old : Option Float) → get_tao F regs count old ≡ refused old
    pub tdef : (old : Option Float) → get_tdef F regs count old ≡ refused old
    pub td_ts_info : (old : Option (TdTsInfo Float)) → get_td_ts_info F regs count old ≡ refused old
    pub tsat_pd_info :
        (old : Option (TsatInfo Float)) → get_tsat_pd_info F regs count old ≡ refused old
    pub tsat_ps_info :
        (old : Option (TsatInfo Float)) → get_tsat_ps_info F regs count old ≡ refused old

  -- So does each getter with the right count and a NULL pointer.
  pub record NullRefused : Type 0 where
    pub arch_errors : get_arch_errors regs 22 none ≡ refused none
    pub eev_level : get_eev_level regs 22 none ≡ refused none
    pub fans_rpm : get_fans_rpm regs 22 none ≡ refused none
    pub last_error : get_last_error regs 22 none ≡ refused none
    pub comp_info : get_comp_info F regs 22 none ≡ refused none
    pub firmware_version : get_firmware_version F regs 22 none ≡ refused none
    pub pd_ps_info : get_pd_ps_info F regs 22 none ≡ refused none
    pub tao : get_tao F regs 22 none ≡ refused none
    pub tdef : get_tdef F regs 22 none ≡ refused none
    pub td_ts_info : get_td_ts_info F regs 22 none ≡ refused none
    pub tsat_pd_info : get_tsat_pd_info F regs 22 none ≡ refused none
    pub tsat_ps_info : get_tsat_ps_info F regs 22 none ≡ refused none

answered :
    (F : Floats) (r0 r1 r2 r3 r4 r5 r6 r7 r8 r9 r10 r11 r12 r13 r14 r15 r16 r17 r18 r19 r20 r21 : ℕ)
    → Answered F (
        r0 ∷ r1 ∷ r2 ∷ r3 ∷ r4 ∷ r5 ∷ r6 ∷ r7 ∷ r8 ∷ r9 ∷ r10 ∷ r11 ∷ r12 ∷ r13 ∷ r14 ∷ r15 ∷ r16
        ∷ r17 ∷ r18 ∷ r19 ∷ r20 ∷ r21 ∷ [])
unfolding get_arch_errors get_eev_level get_fans_rpm get_last_error get_comp_info
    get_firmware_version get_pd_ps_info get_tao get_tdef get_td_ts_info get_tsat_pd_info
    get_tsat_ps_info
answered F r0 r1 r2 r3 r4 r5 r6 r7 r8 r9 r10 r11 r12 r13 r14 r15 r16 r17 r18 r19 r20 r21 = record {
  arch_errors = λ old. (_, refl);
  eev_level = λ old. (_, refl);
  fans_rpm = λ old. (_, refl);
  last_error = λ old. (_, refl);
  comp_info = λ old. (_, refl);
  firmware_version = λ old. (_, refl);
  pd_ps_info = λ old. (_, refl);
  tao = λ old. (_, refl);
  tdef = λ old. (_, refl);
  td_ts_info = λ old. (_, refl);
  tsat_pd_info = λ old. (_, refl);
  tsat_ps_info = λ old. (_, refl);
}

-- Over any 22 registers, the twelve getters over the block from 241 on, called with the count 22
-- and a pointer that is not NULL, return success and a value, without an access outside the
-- array.
pub r241-Answered : (F : Floats) (regs : List ℕ) → length regs ≡ 22 → Answered F regs
r241-Answered F
      (r0 ∷ r1 ∷ r2 ∷ r3 ∷ r4 ∷ r5 ∷ r6 ∷ r7 ∷ r8 ∷ r9 ∷ r10 ∷ r11 ∷ r12 ∷ r13 ∷ r14 ∷ r15 ∷ r16
        ∷ r17 ∷ r18 ∷ r19 ∷ r20 ∷ r21 ∷ [])
      h =
    answered F r0 r1 r2 r3 r4 r5 r6 r7 r8 r9 r10 r11 r12 r13 r14 r15 r16 r17 r18 r19 r20 r21
r241-Answered F _ h = absurd (omega arith)

-- With a count other than 22, the twelve getters over the block from 241 on return -EINVAL and
-- leave what the pointer refers to alone, and with the count 22 and a NULL pointer they return
-- -EINVAL; none of them reads the array.
pub r241-TurnedDown :
    (F : Floats) (regs : List ℕ) (count : ℕ)
    → (count != 22) ≡ true
    → TurnedDown F regs count × NullRefused F regs
unfolding get_arch_errors get_eev_level get_fans_rpm get_last_error get_comp_info
    get_firmware_version get_pd_ps_info get_tao get_tdef get_td_ts_info get_tsat_pd_info
    get_tsat_ps_info
r241-TurnedDown F regs count h = (
  record {
    arch_errors = λ old. rw h;
    eev_level = λ old. rw h;
    fans_rpm = λ old. rw h;
    last_error = λ old. rw h;
    comp_info = λ old. rw h;
    firmware_version = λ old. rw h;
    pd_ps_info = λ old. rw h;
    tao = λ old. rw h;
    tdef = λ old. rw h;
    td_ts_info = λ old. rw h;
    tsat_pd_info = λ old. rw h;
    tsat_ps_info = λ old. rw h;
  },
  record {
    arch_errors = refl;
    eev_level = refl;
    fans_rpm = refl;
    last_error = refl;
    comp_info = refl;
    firmware_version = refl;
    pd_ps_info = refl;
    tao = refl;
    tdef = refl;
    td_ts_info = refl;
    tsat_pd_info = refl;
    tsat_ps_info = refl;
  },
)
