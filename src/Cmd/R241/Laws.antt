-- ===== src/Cmd/R241/Laws.antt =====
-- The getters over the block from 241 on, over the words of a frame.
use haier_controller.Prelude.{
  ℕ, ℤ, ◌+◌, ◌*◌, ◌/◌, ◌%◌, ◌<◌, ◌≡◌, ap, ◌∙◌, arith, bit_and, u16, ◌>>◌,
}
use haier_controller.Prelude.Bits.{bit_and_0x0f, bit_and_0xff, bit_and_0xfff, bit_or_disjoint}
use haier_controller.Floats.{Floats}
use haier_controller.Cmd.Bytes.{signed12, twelve, IsSigned12, signed12-twelve, twelve-lt}
use haier_controller.Cmd.R241.{
  get_arch_errors, get_comp_info, get_eev_level, get_fans_rpm, get_firmware_version, get_last_error,
  get_pd_ps_info, get_tao, get_tdef, get_td_ts_info, get_tsat_pd_info, get_tsat_ps_info, tdef_raw,
}
use haier_controller.Cmd.Fields.{
  word, nib, low, high_byte-word, low_byte-word, low_byte_below, low_byte_above, high_byte_below,
  high_byte_above, nibbles-lt, low-lt,
}
use haier_controller.Cmd.R241.Frame.{Frame, IsFrame, words, Reports}

-- The top nibble of one register and the high byte of the next.
tdef_raw_lem : (r12 r13 : ℕ) → tdef_raw r12 r13 ≡ r12 / 4096 % 16 * 256 + r13 / 256 % 256
unfolding tdef_raw
tdef_raw_lem r12 r13 = ground (
  arith,
  bit_and_0x0f (r12 / 4096),
  bit_and_0xff (r13 / 256),
  bit_or_disjoint 8 (r12 / 4096 % 16) (r13 / 256 % 256),
)

tdef_field :
    (tao tdef : ℤ) (lo : ℕ)
    → IsSigned12 tao
    → IsSigned12 tdef
    → lo < 256
    → signed12 (tdef_raw (nib tdef * 4096 + twelve tao) (word (low tdef) lo)) ≡ tdef
tdef_field tao tdef lo h k small =
    ap signed12 (sum_is_twelve (tdef_raw_lem _ _) (twelve-lt tao h) (twelve-lt tdef k))
    ∙ signed12-twelve tdef k
  where
    sum_is_twelve :
        tdef_raw (nib tdef * 4096 + twelve tao) (word (low tdef) lo)
          ≡ (nib tdef * 4096 + twelve tao) / 4096 % 16 * 256 + word (low tdef) lo / 256 % 256
        → twelve tao < 4096
        → twelve tdef < 4096
        → tdef_raw (nib tdef * 4096 + twelve tao) (word (low tdef) lo) ≡ twelve tdef
    sum_is_twelve e p q = omega arith

tao_field :
    (tao tdef : ℤ) → IsSigned12 tao → signed12 (bit_and (nib tdef * 4096 + twelve tao) 0x0fff) ≡ tao
tao_field tao tdef h =
    ap signed12 (masked (bit_and_0xfff _) (twelve-lt tao h)) ∙ signed12-twelve tao h
  where
    masked :
        bit_and (nib tdef * 4096 + twelve tao) 0x0fff ≡ (nib tdef * 4096 + twelve tao) % 4096
        → twelve tao < 4096
        → bit_and (nib tdef * 4096 + twelve tao) 0x0fff ≡ twelve tao
    masked e p = omega arith

rpm_low : (hi lo : ℕ) → lo < 256 → u16 (u16 (bit_and (word hi lo) 0xff) * 5) ≡ lo * 5
rpm_low hi lo h = omega (arith, bit_and_0xff (word hi lo))

rpm_high : (hi lo : ℕ) → hi < 256 → lo < 256 → u16 (u16 (word hi lo >> 8) * 5) ≡ hi * 5
rpm_high hi lo h k = omega arith

module _ (F : Floats) (f : Frame) (ok : IsFrame f) where
  -- For a frame whose quantities fit their bits, each of the twelve getters over the block from
  -- register 241 on, called with the frame's 22 words and a pointer that is not NULL, returns
  -- success and reports the quantity of the frame, signed 12-bit temperatures included, whatever
  -- the spare bits are.
  pub r241-Reports : Reports F f (words f)
  unfolding get_arch_errors get_comp_info get_eev_level get_fans_rpm get_firmware_version
      get_last_error get_pd_ps_info get_tao get_tdef get_td_ts_info get_tsat_pd_info
      get_tsat_ps_info
  r241-Reports = record {
    arch_errors = λ old. rw (
      high_byte-word f.err1 f.err2 ok.err1 ok.err2,
      low_byte-word f.err1 f.err2 ok.err2,
      high_byte-word f.err3 (f.spare 12) ok.err3 (ok.spare 12),
    );
    comp_info = λ old. rw (
      low_byte-word (f.spare 3) f.fact ok.fact,
      high_byte-word f.fset f.fan0 ok.fset ok.fan0,
      high_byte-word f.current f.voltage ok.current ok.voltage,
      low_byte-word f.current f.voltage ok.voltage,
      low_byte-word (f.spare 6) f.comp_temp ok.comp_temp,
    );
    eev_level = λ old. rw (high_byte-word f.eev f.pd_set ok.eev ok.pd_set);
    fans_rpm =
        λ old. rw (rpm_low f.fset f.fan0 ok.fan0, rpm_high f.fan1 (f.spare 4) ok.fan1 (ok.spare 4));
    firmware_version = λ old. rw (high_byte-word f.version (f.spare 11) ok.version (ok.spare 11));
    last_error = λ old. rw (low_byte-word (f.spare 0) f.last_error ok.last_error);
    pd_ps_info = λ old. rw (
      low_byte-word f.eev f.pd_set ok.pd_set,
      high_byte-word f.pd_act _ ok.pd_act
          (nibbles-lt f.tsat_pd_act f.tsat_pd_target ok.tsat_pd_act ok.tsat_pd_target),
      high_byte-word f.ps_set f.ps_act ok.ps_set ok.ps_act,
      low_byte-word f.ps_set f.ps_act ok.ps_act,
    );
    tao = λ old. rw (tao_field f.tao f.tdef ok.tao);
    tdef = λ old. rw (tdef_field f.tao f.tdef (f.spare 5) ok.tao ok.tdef (ok.spare 5));
    td_ts_info = λ old. rw (
      high_byte-word (low f.td) (low f.ts) (low-lt f.td) (low-lt f.ts),
      low_byte-word (low f.td) (low f.ts) (low-lt f.ts),
      low_byte_below (low f.tsat_ps_act) f.ts f.td ok.ts ok.td,
      low_byte_above (low f.tsat_ps_act) f.ts f.td ok.ts ok.td,
    );
    tsat_pd_info = λ old. rw (
      high_byte-word _ _ (low-lt f.tsat_pd_target) (low-lt f.tsat_pd_act),
      low_byte-word (low f.tsat_pd_target) _ (low-lt f.tsat_pd_act),
      low_byte_below f.pd_act f.tsat_pd_act f.tsat_pd_target ok.tsat_pd_act ok.tsat_pd_target,
      low_byte_above f.pd_act f.tsat_pd_act f.tsat_pd_target ok.tsat_pd_act ok.tsat_pd_target,
    );
    tsat_ps_info = λ old. rw (
      low_byte-word _ (low f.tsat_ps_target) (low-lt f.tsat_ps_target),
      high_byte-word _ _ (low-lt f.tsat_ps_act) (nibbles-lt f.ts f.td ok.ts ok.td),
      high_byte_below f.tsat_ps_act f.tsat_ps_target _ ok.tsat_ps_act ok.tsat_ps_target
          (low-lt f.tsat_ps_target),
      high_byte_above f.tsat_ps_act f.tsat_ps_target _ ok.tsat_ps_act ok.tsat_ps_target
          (low-lt f.tsat_ps_target),
    );
  }
