-- ===== src/Cmd/Set/Words.antt =====
-- What the setters do to the frame of the block from 101 on: the command flags, and the pieces of
-- words that all of them share.
use haier_controller.Prelude.{
  ℕ, ◌+◌, ◌*◌, ◌%◌, ◌<◌, ◌≡◌, refl, List, [], ◌∷◌, arith, ◌==◌, if◌then◌else◌, length, bit_and,
  bit_or, u16, ◌<<◌,
}
use haier_controller.Prelude.Bits.{bit_and_0xff, bit_and_0xff00, bit_or_disjoint}
use haier_controller.Cmd.Types.{reply}
use haier_controller.Cmd.R101.Frame.{Settings, status_byte}
use haier_controller.Cmd.Set.{store, store6}

-- A command: `flag` in the high byte of the status word, `mark` in that of the fifth word, and only
-- the low nibble of the fourth word.
abbrev pub commanded : ℕ → ℕ → (ℕ → ℕ) → ℕ → ℕ
commanded flag mark spare i =
    if i == 1
    then flag
    else (if i == 3 then spare 3 % 16 else (if i == 4 then mark * 256 + spare 4 % 256 else spare i))

abbrev pub command : ℕ → ℕ → Settings → Settings
command flag mark s = record s { spare = commanded flag mark s.spare }

-- The six assignments replace the whole of an array of six.
pub store6_lem :
    (out : List ℕ) (a b c d e f : ℕ)
    → length out ≡ 6
    → store6 out a b c d e f ≡ reply (a ∷ b ∷ c ∷ d ∷ e ∷ f ∷ [])
unfolding store6 store
store6_lem (o0 ∷ o1 ∷ o2 ∷ o3 ∷ o4 ∷ o5 ∷ []) a b c d e f h = refl
store6_lem _ a b c d e f h = absurd (omega arith)

module _ (hi lo : ℕ) (h : lo < 256) where
  pub low_part : bit_and (hi * 256 + lo) 0xff ≡ lo
  low_part = omega (arith, bit_and_0xff (hi * 256 + lo))

  pub high_part : hi < 256 → bit_and (hi * 256 + lo) 0xff00 ≡ hi * 256
  high_part k = omega (arith, bit_and_0xff00 (hi * 256 + lo))

  -- A flag, or a byte that is shifted up, over a low byte.
  pub under_flag : bit_or (hi * 256) lo ≡ hi * 256 + lo
  under_flag = bit_or_disjoint 8 hi lo h

  pub under_byte : hi < 256 → u16 (bit_or (hi << 8) lo) ≡ hi * 256 + lo
  under_byte k = omega (arith, bit_or_disjoint 8 hi lo h)

pub status_byte-lt : (s : Settings) → s.spare 0 < 16 → status_byte s < 256
status_byte-lt s h = ground arith
