-- ===== src/Cmd/R101/Any.antt =====
-- Any six registers of 16 bits are the words of settings.
use mathlib.Core.Path.{subst}
use haier_controller.Prelude.{ℕ, ◌/◌, ◌%◌, ◌<◌, zero, suc, ◌≡◌, refl, [], ◌∷◌, arith, i8}
use haier_controller.Prelude.Int.{sub_ℕ}
use haier_controller.Prelude.Bits.{has_bit, has_bit-digit, digit, digit-lt}
use haier_controller.Floats.{Floats}
use haier_controller.Cmd.R101.Frame.{
  Settings, IsSettings, IsOffset, IsSigned8, offset, eight, flag, status_byte, words, Reports,
}
use haier_controller.Cmd.R101.Laws.{r101-Reports}

-- The settings that the six words carry.
abbrev pub settings_of : ℕ → ℕ → ℕ → ℕ → ℕ → ℕ → Settings
settings_of r0 r1 r2 r3 r4 r5 = record {
  is_on = has_bit r0 0;
  cooling = has_bit r0 1;
  heating = has_bit r0 2;
  has_tank = has_bit r0 7;
  ch_temp = r1 / 256;
  temp_comp = sub_ℕ (r1 % 256) 30;
  dhw_target = i8 (r5 / 256);
  dhw_comp = sub_ℕ (r5 % 256) 30;
  spare = spare_of;
}
  where
    spare_of : ℕ → ℕ
    spare_of zero = r0 / 8 % 16
    spare_of (suc zero) = r0 / 256
    spare_of (suc (suc zero)) = r2
    spare_of (suc (suc (suc zero))) = r3
    spare_of _ = r4

offset-sub : (b : ℕ) → offset (sub_ℕ b 30) ≡ b
offset-sub b = ground arith

IsOffset-sub : (b : ℕ) → b < 256 → IsOffset (sub_ℕ b 30)
IsOffset-sub b h = ground arith

eight-i8 : (b : ℕ) → b < 256 → eight (i8 b) ≡ b
eight-i8 b h = ground arith

IsSigned8-i8 : (b : ℕ) → b < 256 → IsSigned8 (i8 b)
IsSigned8-i8 b h = ground arith

flag_digit : (k x : ℕ) → flag (has_bit x k) ≡ digit k x
flag_digit k x = ground (arith, has_bit-digit k x, digit-lt k x)

status_byte_lem : (r0 r1 r2 r3 r4 r5 : ℕ) → status_byte (settings_of r0 r1 r2 r3 r4 r5) ≡ r0 % 256
status_byte_lem r0 r1 r2 r3 r4 r5 =
    omega (arith, flag_digit 0 r0, flag_digit 1 r0, flag_digit 2 r0, flag_digit 7 r0)

words-cong :
    {a b f a' b' f' : ℕ} (c d e : ℕ)
    → a ≡ a'
    → b ≡ b'
    → f ≡ f'
    → a ∷ b ∷ c ∷ d ∷ e ∷ f ∷ [] ≡ a' ∷ b' ∷ c ∷ d ∷ e ∷ f' ∷ []
words-cong c d e p q r = rw (p, q, r) refl

module _ (r0 r1 r2 r3 r4 r5 : ℕ) where
  pub settings_of-words :
      r5 < 65536 → words (settings_of r0 r1 r2 r3 r4 r5) ≡ r0 ∷ r1 ∷ r2 ∷ r3 ∷ r4 ∷ r5 ∷ []
  settings_of-words h =
      words-cong r2 r3 r4 (omega (arith, status_byte_lem r0 r1 r2 r3 r4 r5))
        (omega (arith, offset-sub (r1 % 256)))
        (omega (arith, offset-sub (r5 % 256), eight-i8 (r5 / 256) (omega arith)))

  pub settings_of-IsSettings : r1 < 65536 → r5 < 65536 → IsSettings (settings_of r0 r1 r2 r3 r4 r5)
  settings_of-IsSettings h k = record {
    ch_temp = omega arith;
    temp_comp = IsOffset-sub (r1 % 256) (omega arith);
    dhw_target = IsSigned8-i8 (r5 / 256) (omega arith);
    dhw_comp = IsOffset-sub (r5 % 256) (omega arith);
    middle = omega arith;
  }

-- Any six registers, of which the second and the sixth have 16 bits, are the words of settings
-- that fit their bits, and each of the five getters over them, called with a size of 6 and a
-- pointer that is not NULL, returns success and reports these settings.
pub settings_of-Reports :
    (F : Floats) (r0 r1 r2 r3 r4 r5 : ℕ)
    → r1 < 65536
    → r5 < 65536
    → IsSettings (settings_of r0 r1 r2 r3 r4 r5)
      × (words (settings_of r0 r1 r2 r3 r4 r5) ≡ r0 ∷ r1 ∷ r2 ∷ r3 ∷ r4 ∷ r5 ∷ [])
      × Reports F (settings_of r0 r1 r2 r3 r4 r5) (r0 ∷ r1 ∷ r2 ∷ r3 ∷ r4 ∷ r5 ∷ [])
settings_of-Reports F r0 r1 r2 r3 r4 r5 h k =
    let same = settings_of-words r0 r1 r2 r3 r4 r5 k in
    let fits = settings_of-IsSettings r0 r1 r2 r3 r4 r5 h k in
    (
      fits,
      same,
      subst (λ regs. Reports F (settings_of r0 r1 r2 r3 r4 r5) regs) same
          (r101-Reports F (settings_of r0 r1 r2 r3 r4 r5) fits),
    )
