-- ===== src/Cmd/R241/Frame.antt =====
-- An independent description of the block from register 241 on: the quantities that the heat pump
-- reports, and the words in which they travel. The bits that no getter reads are `spare`.
use haier_controller.Prelude.{ℕ, ℤ, ◌+◌, ◌*◌, ◌<◌, ◌≡◌, List, [], ◌∷◌, some, pos}
use haier_controller.Floats.{Floats}
use haier_controller.Cmd.Types.{
  reply, ArchErrors, CompressorInfo, FansInfo, PdPsInfo, TdTsInfo, TsatInfo,
}
use haier_controller.Cmd.Fields.{nib, low, word}
use haier_controller.Cmd.Bytes.{twelve, IsSigned12}
use haier_controller.Cmd.R241.{
  get_arch_errors, get_comp_info, get_eev_level, get_fans_rpm, get_firmware_version, get_last_error,
  get_pd_ps_info, get_tao, get_tdef, get_td_ts_info, get_tsat_pd_info, get_tsat_ps_info,
}

pub record Frame : Type 0 where
  pub last_error : ℕ
  pub fact : ℕ
  pub fset : ℕ
  pub fan0 : ℕ
  pub fan1 : ℕ
  pub eev : ℕ
  pub pd_set : ℕ
  pub pd_act : ℕ
  pub ps_set : ℕ
  pub ps_act : ℕ
  pub tsat_pd_target : ℤ
  pub tsat_pd_act : ℤ
  pub tsat_ps_target : ℤ
  pub tsat_ps_act : ℤ
  pub td : ℤ
  pub ts : ℤ
  pub tao : ℤ
  pub tdef : ℤ
  pub comp_temp : ℕ
  pub current : ℕ
  pub voltage : ℕ
  pub version : ℕ
  pub err1 : ℕ
  pub err2 : ℕ
  pub err3 : ℕ
  pub spare : ℕ → ℕ

-- Every quantity fits its bits.
pub record IsFrame (f : Frame) : Type 0 where
  pub last_error : f.last_error < 256
  pub fact : f.fact < 256
  pub fset : f.fset < 256
  pub fan0 : f.fan0 < 256
  pub fan1 : f.fan1 < 256
  pub eev : f.eev < 256
  pub pd_set : f.pd_set < 256
  pub pd_act : f.pd_act < 256
  pub ps_set : f.ps_set < 256
  pub ps_act : f.ps_act < 256
  pub tsat_pd_target : IsSigned12 f.tsat_pd_target
  pub tsat_pd_act : IsSigned12 f.tsat_pd_act
  pub tsat_ps_target : IsSigned12 f.tsat_ps_target
  pub tsat_ps_act : IsSigned12 f.tsat_ps_act
  pub td : IsSigned12 f.td
  pub ts : IsSigned12 f.ts
  pub tao : IsSigned12 f.tao
  pub tdef : IsSigned12 f.tdef
  pub comp_temp : f.comp_temp < 256
  pub current : f.current < 256
  pub voltage : f.voltage < 256
  pub version : f.version < 256
  pub err1 : f.err1 < 256
  pub err2 : f.err2 < 256
  pub err3 : f.err3 < 256
  pub spare : (i : ℕ) → f.spare i < 256

abbrev pub words : Frame → List ℕ
words f =
    word (f.spare 0) f.last_error
    ∷ word (f.spare 1) (f.spare 2)
    ∷ word (f.spare 3) f.fact
    ∷ word f.fset f.fan0
    ∷ word f.fan1 (f.spare 4)
    ∷ word f.eev f.pd_set
    ∷ word f.pd_act (nib f.tsat_pd_act * 16 + nib f.tsat_pd_target)
    ∷ word (low f.tsat_pd_target) (low f.tsat_pd_act)
    ∷ word f.ps_set f.ps_act
    ∷ word (nib f.tsat_ps_act * 16 + nib f.tsat_ps_target) (low f.tsat_ps_target)
    ∷ word (low f.tsat_ps_act) (nib f.ts * 16 + nib f.td)
    ∷ word (low f.td) (low f.ts)
    ∷ (nib f.tdef * 4096 + twelve f.tao)
    ∷ word (low f.tdef) (f.spare 5)
    ∷ word (f.spare 6) f.comp_temp
    ∷ word f.current f.voltage
    ∷ word (f.spare 7) (f.spare 8)
    ∷ word (f.spare 9) (f.spare 10)
    ∷ word f.version (f.spare 11)
    ∷ word f.err1 f.err2
    ∷ word f.err3 (f.spare 12)
    ∷ word (f.spare 13) (f.spare 14)
    ∷ []

-- What the twelve getters say of the registers `regs`, if they report the frame `f`.
module _ (F : Floats) where
  open F use {Float, of_int, literal, mul, div}

  abbrev pub tenths : ℤ → Float
  tenths z = div (of_int z) (literal 10 0)

  abbrev pub fifths : ℕ → Float
  fifths n = mul (of_int (pos n)) (literal 0 2)

  pub record Reports (f : Frame) (regs : List ℕ) : Type 0 where
    pub arch_errors :
        (old : ArchErrors)
        → get_arch_errors regs 22 (some old)
          ≡ reply (record { err1 = f.err1; err2 = f.err2; err3 = f.err3 })
    pub comp_info :
        (old : CompressorInfo Float)
        → get_comp_info F regs 22 (some old)
          ≡ reply (record {
            fset = of_int (pos f.fset);
            fact = of_int (pos f.fact);
            current = div (of_int (pos f.current)) (literal 5 0);
            voltage = mul (of_int (pos f.voltage)) (literal 4 0);
            temp = tenths (pos f.comp_temp);
          })
    pub eev_level : (old : ℕ) → get_eev_level regs 22 (some old) ≡ reply f.eev
    pub fans_rpm :
        (old : FansInfo)
        → get_fans_rpm regs 22 (some old) ≡ reply (record { rpm0 = f.fan0 * 5; rpm1 = f.fan1 * 5 })
    pub firmware_version :
        (old : Float) → get_firmware_version F regs 22 (some old) ≡ reply (tenths (pos f.version))
    pub last_error : (old : ℕ) → get_last_error regs 22 (some old) ≡ reply f.last_error
    pub pd_ps_info :
        (old : PdPsInfo Float)
        → get_pd_ps_info F regs 22 (some old)
          ≡ reply (record {
            pd_set = fifths f.pd_set;
            pd_act = fifths f.pd_act;
            ps_set = fifths f.ps_set;
            ps_act = fifths f.ps_act;
          })
    pub tao : (old : Float) → get_tao F regs 22 (some old) ≡ reply (tenths f.tao)
    pub tdef : (old : Float) → get_tdef F regs 22 (some old) ≡ reply (tenths f.tdef)
    pub td_ts_info :
        (old : TdTsInfo Float)
        → get_td_ts_info F regs 22 (some old)
          ≡ reply (record { td = tenths f.td; ts = tenths f.ts })
    pub tsat_pd_info :
        (old : TsatInfo Float)
        → get_tsat_pd_info F regs 22 (some old)
          ≡ reply
              (record { tsat_target = tenths f.tsat_pd_target; tsat_act = tenths f.tsat_pd_act })
    pub tsat_ps_info :
        (old : TsatInfo Float)
        → get_tsat_ps_info F regs 22 (some old)
          ≡ reply
              (record { tsat_target = tenths f.tsat_ps_target; tsat_act = tenths f.tsat_ps_act })
