-- ===== src/Cmd/Set/Temperatures.antt =====
-- The setters of temperatures and compensations, over the words of settings.
use haier_controller.Prelude.{
  ℕ, ℤ, pos, ◌%◌, ◌<◌, ◌≡◌, List, none, some, arith, get_elem?-eq-get_or, length,
}
use haier_controller.Prelude.Bits.{bit_and_0x0f, bit_and_0xff}
use haier_controller.Floats.{Floats, below_lem}
use haier_controller.Cmd.Types.{reply}
use haier_controller.Cmd.R101.Frame.{
  Settings, IsSettings, IsOffset, words, status_byte, offset, eight,
}
use haier_controller.Cmd.R101.Laws.{offset-lt, eight-lt}
use haier_controller.Cmd.Set.{
  set_ch_temp, set_dhw_temp, set_dhw_compensation, set_temp_compensation,
}
use haier_controller.Cmd.Set.Words.{
  command, store6_lem, low_part, high_part, under_flag, under_byte, status_byte-lt,
}

module _ (F : Floats) (s : Settings) (ok : IsSettings s) (t : F.Float) (out : List ℕ)
    (six : length out ≡ 6) where
  open F use {literal, add, mul, trunc}

  -- The request in half degrees is cut to an integer, which becomes the target for heating.
  pub set_ch_temp-words :
      (n : ℕ)
      → trunc (mul t (literal 2 0)) ≡ some (pos n)
      → n < 256
      → set_ch_temp F (some (words s)) 6 t (some out)
        ≡ reply (words (command 4 0 (record s { ch_temp = n })))
  unfolding set_ch_temp
  set_ch_temp-words n e h =
      rw
        (
          e,
          below_lem 65536 n (omega arith),
          store6_lem out _ _ _ _ _ _ six,
          low_part (s.spare 1) (status_byte s) (status_byte-lt s ok.middle),
          under_flag 4 (status_byte s) (status_byte-lt s ok.middle),
          low_part s.ch_temp (offset s.temp_comp) (offset-lt s.temp_comp ok.temp_comp),
          under_byte n (offset s.temp_comp) (offset-lt s.temp_comp ok.temp_comp) h,
          bit_and_0x0f (s.spare 3),
          bit_and_0xff (s.spare 4),
        )
        (ground arith)

  pub set_dhw_temp-words :
      (n : ℕ)
      → trunc (mul t (literal 2 0)) ≡ some (pos n)
      → n < 256
      → set_dhw_temp F (some (words s)) 6 t (some out)
        ≡ reply (words (command 0 2 (record s { dhw_target = pos n })))
  unfolding set_dhw_temp
  set_dhw_temp-words n e h =
      rw
        (
          e,
          below_lem 65536 n (omega arith),
          store6_lem out _ _ _ _ _ _ six,
          low_part (s.spare 1) (status_byte s) (status_byte-lt s ok.middle),
          bit_and_0x0f (s.spare 3),
          bit_and_0xff (s.spare 4),
          under_flag 2 (s.spare 4 % 256) (omega arith),
          low_part (eight s.dhw_target) (offset s.dhw_comp) (offset-lt s.dhw_comp ok.dhw_comp),
          under_byte n (offset s.dhw_comp) (offset-lt s.dhw_comp ok.dhw_comp) h,
        )
        (ground arith)

  -- For the words of settings that fit and an array of six, if 30 plus twice the request cuts to
  -- the offset form of a compensation that fits a byte, set_temp_compensation returns the words
  -- of the same settings with that compensation for the heating, under command flag 8.
  pub set_temp_compensation-words :
      (c : ℤ)
      → trunc (add (literal 30 0) (mul t (literal 2 0))) ≡ some (pos (offset c))
      → IsOffset c
      → set_temp_compensation F (some (words s)) 6 t (some out)
        ≡ reply (words (command 8 0 (record s { temp_comp = c })))
  unfolding set_temp_compensation
  set_temp_compensation-words c e h =
      rw
        (
          e,
          below_lem 256 (offset c) (offset-lt c h),
          store6_lem out _ _ _ _ _ _ six,
          low_part (s.spare 1) (status_byte s) (status_byte-lt s ok.middle),
          under_flag 8 (status_byte s) (status_byte-lt s ok.middle),
          high_part s.ch_temp (offset s.temp_comp) (offset-lt s.temp_comp ok.temp_comp) ok.ch_temp,
          under_flag s.ch_temp (offset c) (offset-lt c h),
          bit_and_0x0f (s.spare 3),
          bit_and_0xff (s.spare 4),
        )
        (ground arith)

  -- For the words of settings that fit and an array of six, if 30 plus twice the request cuts to
  -- the offset form of a compensation that fits a byte, set_dhw_compensation returns the words of
  -- the same settings with that compensation for the tank, under command flag 8.
  pub set_dhw_compensation-words :
      (c : ℤ)
      → trunc (add (literal 30 0) (mul t (literal 2 0))) ≡ some (pos (offset c))
      → IsOffset c
      → set_dhw_compensation F (some (words s)) 6 t (some out)
        ≡ reply (words (command 8 0 (record s { dhw_comp = c })))
  unfolding set_dhw_compensation
  set_dhw_compensation-words c e h =
      rw
        (
          e,
          below_lem 256 (offset c) (offset-lt c h),
          store6_lem out _ _ _ _ _ _ six,
          low_part (s.spare 1) (status_byte s) (status_byte-lt s ok.middle),
          under_flag 8 (status_byte s) (status_byte-lt s ok.middle),
          bit_and_0x0f (s.spare 3),
          bit_and_0xff (s.spare 4),
          high_part (eight s.dhw_target) (offset s.dhw_comp) (offset-lt s.dhw_comp ok.dhw_comp)
              (eight-lt s.dhw_target ok.dhw_target),
          under_flag (eight s.dhw_target) (offset c) (offset-lt c h),
        )
        (ground arith)

  -- For the words of settings that fit and an array of six, if 30 plus twice the request cuts to
  -- the offset form of a compensation that fits a byte, set_temp_compensation and
  -- set_dhw_compensation return, under command flag 8, the words of the same settings with that
  -- compensation for the heating and for the tank.
  pub compensations-words :
      (c : ℤ)
      → trunc (add (literal 30 0) (mul t (literal 2 0))) ≡ some (pos (offset c))
      → IsOffset c
      → (set_temp_compensation F (some (words s)) 6 t (some out)
          ≡ reply (words (command 8 0 (record s { temp_comp = c }))))
        × (set_dhw_compensation F (some (words s)) 6 t (some out)
            ≡ reply (words (command 8 0 (record s { dhw_comp = c }))))
  compensations-words c e h = (set_temp_compensation-words c e h, set_dhw_compensation-words c e h)

-- If the doubled request is not a finite number, its cast is undefined.
pub set_ch_temp-undefined :
    (F : Floats) (cur : List ℕ) (t : F.Float) (out : List ℕ)
    → length cur ≡ 6
    → F.trunc (F.mul t (F.literal 2 0)) ≡ none
    → set_ch_temp F (some cur) 6 t (some out) ≡ none
unfolding set_ch_temp
set_ch_temp-undefined F cur t out six nan = rw (get_elem?-eq-get_or cur 0 0 (omega arith), nan)
