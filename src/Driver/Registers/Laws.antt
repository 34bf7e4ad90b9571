-- ===== src/Driver/Registers/Laws.antt =====
-- parse_registers over the bytes of words.
use mathlib.Core.List.{append_assoc}
use haier_controller.Prelude.{
  ℕ, suc, ◌+◌, ◌*◌, ◌/◌, ◌%◌, ◌<◌, ◌≡◌, refl, ap, ◌∙◌, List, [], ◌∷◌, ◌++◌, some, arith, length,
  length-append, get_elem?, set, bit_or, u16, ◌<<◌,
}
use haier_controller.Prelude.Bits.{bit_or_disjoint}
use haier_controller.Cmd.Set.{store}
use haier_controller.Driver.Registers.{parse_loop, parse_registers}

-- The bytes of words, as they travel.
abbrev pub bytes : List ℕ → List ℕ
bytes [] = []
bytes (w ∷ ws) = w / 256 ∷ w % 256 ∷ bytes ws

abbrev pub IsWords : List ℕ → Type 0
IsWords [] = Unit
IsWords (w ∷ ws) = (w < 65536) × IsWords ws

pub length-bytes : (ws : List ℕ) → length (bytes ws) ≡ length ws * 2
length-bytes [] = refl
length-bytes (w ∷ ws) = omega (arith, length-bytes ws)

bytes-append : (xs ys : List ℕ) → bytes (xs ++ ys) ≡ bytes xs ++ bytes ys
bytes-append [] ys = refl
bytes-append (x ∷ xs) ys = ap (λ t. x / 256 ∷ x % 256 ∷ t) (bytes-append xs ys)

zero_plus : (i : ℕ) → 0 + i ≡ i
zero_plus i = omega arith

suc_plus : (n i : ℕ) → suc n + i ≡ suc (n + i)
suc_plus n i = omega arith

get_elem?-append : (xs ys : List ℕ) (i : ℕ) → get_elem? (xs ++ ys) (length xs + i) ≡ get_elem? ys i
get_elem?-append [] ys i = rw (zero_plus i)
get_elem?-append (x ∷ xs) ys i = rw (suc_plus (length xs) i) (get_elem?-append xs ys i)

set-append : (xs ys : List ℕ) (o v : ℕ) → set (xs ++ o ∷ ys) (length xs) v ≡ xs ++ v ∷ ys
set-append [] ys o v = refl
set-append (x ∷ xs) ys o v = ap (λ t. x ∷ t) (set-append xs ys o v)

store-append : (xs ys : List ℕ) (o v : ℕ) → store (xs ++ o ∷ ys) (length xs) v ≡ some (xs ++ v ∷ ys)
unfolding store
store-append xs ys o v = ground (arith, set-append xs ys o v, length-append xs (o ∷ ys))

joined : (w : ℕ) → w < 65536 → u16 (bit_or ((w / 256) << 8) (w % 256)) ≡ w
joined w h = omega (arith, bit_or_disjoint 8 (w / 256) (w % 256))

-- The two bytes of the next word.
high_read :
    (done : List ℕ) (hi : ℕ) (tail : List ℕ)
    → get_elem? (bytes done ++ hi ∷ tail) (length done * 2) ≡ some hi
high_read done hi tail =
    ground (arith, length-bytes done, get_elem?-append (bytes done) (hi ∷ tail) 0)

low_read :
    (done : List ℕ) (hi lo : ℕ) (tail : List ℕ)
    → get_elem? (bytes done ++ hi ∷ lo ∷ tail) (length done * 2 + 1) ≡ some lo
low_read done hi lo tail =
    ground (arith, length-bytes done, get_elem?-append (bytes done) (hi ∷ lo ∷ tail) 1)

-- One round moves the next word from the payload to the array.
parse_loop-suc :
    (done ws rest old : List ℕ) (w o left : ℕ)
    → w < 65536
    → parse_loop (bytes done ++ (bytes (w ∷ ws) ++ rest)) (suc left) (length done) (done ++ o ∷ old)
      ≡ parse_loop (bytes done ++ (bytes (w ∷ ws) ++ rest)) left (length done + 1) (done ++ w ∷ old)
unfolding parse_loop
parse_loop-suc done ws rest old w o left h = rw (
  high_read done (w / 256) (w % 256 ∷ (bytes ws ++ rest)),
  low_read done (w / 256) (w % 256) (bytes ws ++ rest),
  joined w h,
  store-append done old o w,
)

-- The same round, with the word counted among those that are done.
shift_raw :
    (done ws rest : List ℕ) (w : ℕ)
    → bytes (done ++ w ∷ []) ++ (bytes ws ++ rest) ≡ bytes done ++ (bytes (w ∷ ws) ++ rest)
shift_raw done ws rest w =
    rw (bytes-append done (w ∷ [])) (append_assoc (bytes done) (bytes (w ∷ [])) (bytes ws ++ rest))

shift_out : (done old : List ℕ) (w : ℕ) → (done ++ w ∷ []) ++ old ≡ done ++ w ∷ old
shift_out done old w = append_assoc done (w ∷ []) old

length-snoc : (done : List ℕ) (w : ℕ) → length (done ++ w ∷ []) ≡ length done + 1
length-snoc done w = omega (arith, length-append done (w ∷ []))

parse_loop-bytes :
    (ws done rest old : List ℕ)
    → IsWords ws
    → length old ≡ length ws
    → parse_loop (bytes done ++ (bytes ws ++ rest)) (length ws) (length done) (done ++ old)
      ≡ some (done ++ ws)
unfolding parse_loop
parse_loop-bytes [] done rest [] h e = refl
parse_loop-bytes [] done rest (o ∷ old) h e = absurd (omega arith)
parse_loop-bytes (w ∷ ws) done rest [] h e = absurd (omega arith)
parse_loop-bytes (w ∷ ws) done rest (o ∷ old) h e =
    parse_loop-suc done ws rest old w o (length ws) h.0
    ∙ rw (← shift_raw done ws rest w, ← shift_out done old w, ← length-snoc done w)
        (parse_loop-bytes ws (done ++ w ∷ []) rest old h.1 (omega arith)
          ∙ ap some (shift_out done ws w))

-- If a payload starts with the bytes of 16-bit words, high byte first, and the array has as many
-- elements as there are words, parse_registers fills the array with these words, whatever it
-- held.
pub parse_registers-bytes :
    (ws rest old : List ℕ)
    → IsWords ws
    → length old ≡ length ws
    → parse_registers (bytes ws ++ rest) old (length ws) ≡ some ws
unfolding parse_registers
parse_registers-bytes ws rest old h e = parse_loop-bytes ws [] rest old h e
