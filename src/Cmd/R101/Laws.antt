-- ===== src/Cmd/R101/Laws.antt =====
-- The getters over the block from 101 on, over the words of settings.
use haier_controller.Prelude.{
  ℕ, ℤ, pos, negsuc, ◌+◌, ◌-◌, ◌*◌, ◌<◌, ◌≡◌, Bool, arith, bit_and, i8, ◌>>◌,
}
use haier_controller.Prelude.Int.{sub_ℕ}
use haier_controller.Prelude.Bits.{bit_and_0xff, has_bit, has_bit-digit}
use haier_controller.Floats.{Floats}
use haier_controller.Cmd.Bytes.{high_byte, high_byte_lem}
use haier_controller.Cmd.R101.{
  heat_mode_of, get_state, get_ch_temp, get_dhw_compensation, get_dhw_target_temp,
  get_temp_compensation,
}
use haier_controller.Cmd.R101.Frame.{
  Settings, IsSettings, IsOffset, IsSigned8, offset, eight, status_byte, words, mode_of, Reports,
}

sub-offset : (hi : ℕ) (c : ℤ) → IsOffset c → sub_ℕ (bit_and (hi * 256 + offset c) 0xff) 30 ≡ c
sub-offset hi (pos n) h = ground (arith, bit_and_0xff (hi * 256 + (n + 30)))
sub-offset hi (negsuc n) h = ground (arith, bit_and_0xff (hi * 256 + (29 - n)))

pub offset-lt : (c : ℤ) → IsOffset c → offset c < 256
offset-lt (pos n) h = omega arith
offset-lt (negsuc n) h = omega arith

pub eight-lt : (z : ℤ) → IsSigned8 z → eight z < 256
eight-lt (pos n) h = omega arith
eight-lt (negsuc n) h = omega arith

i8-eight : (z : ℤ) (lo : ℕ) → IsSigned8 z → lo < 256 → i8 ((eight z * 256 + lo) >> 8) ≡ z
i8-eight (pos n) lo h k = ground arith
i8-eight (negsuc n) lo h k = ground arith

high_byte_ch : (ch lo : ℕ) → ch < 256 → lo < 256 → high_byte (ch * 256 + lo) ≡ ch
high_byte_ch ch lo p q = omega (arith, high_byte_lem (ch * 256 + lo))

-- The four bits of the status byte.
module _ (s : Settings) (ok : IsSettings s) where
  abbrev status : ℕ
  status = s.spare 1 * 256 + status_byte s

  bit_on : has_bit status 0 ≡ s.is_on
  bit_on = ground (arith, has_bit-digit 0 status)

  bit_cool : has_bit status 1 ≡ s.cooling
  bit_cool = ground (arith, has_bit-digit 1 status)

  bit_heat : has_bit status 2 ≡ s.heating
  bit_heat = ground (arith, has_bit-digit 2 status)

  bit_tank : has_bit status 7 ≡ s.has_tank
  bit_tank = ground (arith, has_bit-digit 7 status)

heat_mode_of_lem : (c h : Bool) → heat_mode_of c h ≡ mode_of c h
unfolding heat_mode_of
heat_mode_of_lem c h = ground arith

module _ (F : Floats) (s : Settings) (ok : IsSettings s) where
  -- For settings that fit their bits, each of the five getters over the block from register 101
  -- on, called with the six words of the settings and a pointer that is not NULL, returns success
  -- and reports the settings, compensations with their sign, whatever the spare bits are.
  pub r101-Reports : Reports F s (words s)
  unfolding get_state get_ch_temp get_dhw_compensation get_dhw_target_temp get_temp_compensation
  r101-Reports = record {
    state = λ old. rw (
      bit_on s ok,
      bit_tank s ok,
      bit_cool s ok,
      bit_heat s ok,
      heat_mode_of_lem s.cooling s.heating,
    );
    ch_temp = λ old. rw (high_byte_ch s.ch_temp _ ok.ch_temp (offset-lt s.temp_comp ok.temp_comp));
    temp_compensation = λ old. rw (sub-offset s.ch_temp s.temp_comp ok.temp_comp);
    dhw_target_temp =
        λ old. rw (i8-eight s.dhw_target _ ok.dhw_target (offset-lt s.dhw_comp ok.dhw_comp));
    dhw_compensation = λ old. rw (sub-offset (eight s.dhw_target) s.dhw_comp ok.dhw_comp);
  }
