-- ===== src/App/Mqtt/Laws.antt =====
-- Commands on the topic heatpump/cmd: a name, a space and a value.
use mathlib.Core.List.{append_assoc}
use haier_controller.Prelude.{
  ℕ, pos, ◌<◌, ◌≡◌, ◌≢◌, refl, ap, ◌∙◌, false, leb, List, [], ◌∷◌, ◌++◌, none, some, arith, length,
  set,
}
use haier_controller.App.Mqtt.{
  rx_size, Handler, cmd_ch, cmd_dhw, cmd_state, cmd_mode, cmd_list, c_string, split_at_space,
  same_text, find_handler, Call, dispatch_cmd, on_publish,
}

-- No byte of the text is `b`.
abbrev pub Free : ℕ → List ℕ → Type 0
Free b [] = Unit
Free b (c ∷ cs) = (c ≢ b) × Free b cs

c_string-append : (text rest : List ℕ) → Free 0 text → c_string (text ++ 0 ∷ rest) ≡ some text
unfolding c_string
c_string-append [] rest h = refl
c_string-append (c ∷ cs) rest h = ground (arith, c_string-append cs rest h.1)

split_at_space-append :
    (name rest : List ℕ) → Free b' ' name → split_at_space (name ++ b' ' ∷ rest) ≡ some (name, rest)
unfolding split_at_space
split_at_space-append [] rest h = refl
split_at_space-append (c ∷ cs) rest h = ground (arith, split_at_space-append cs rest h.1)

-- Without a space anywhere in the buffer the search runs behind its end.
split_at_space-none : (buf : List ℕ) → Free b' ' buf → split_at_space buf ≡ none
unfolding split_at_space
split_at_space-none [] h = refl
split_at_space-none (c ∷ cs) h = ground (arith, split_at_space-none cs h.1)

abbrev pub name_of : Handler → List ℕ
name_of cmd_ch = b'c' ∷ b'h' ∷ []
name_of cmd_dhw = b'd' ∷ b'h' ∷ b'w' ∷ []
name_of cmd_state = b's' ∷ b't' ∷ b'a' ∷ b't' ∷ b'e' ∷ []
name_of cmd_mode = b'm' ∷ b'o' ∷ b'd' ∷ b'e' ∷ []

-- The text that asks for a call.
abbrev pub spelled : Call → List ℕ
spelled c = name_of c.handler ++ b' ' ∷ c.arg

find_handler-name_of : (h : Handler) → find_handler (name_of h) cmd_list ≡ some h
unfolding find_handler same_text
find_handler-name_of cmd_ch = refl
find_handler-name_of _ = refl

name_of-Free : (h : Handler) → Free b' ' (name_of h) × Free 0 (name_of h)
name_of-Free cmd_ch = grind arith
name_of-Free _ = grind arith

-- A buffer that starts with the text of a call and a NUL is dispatched as that call, whatever
-- stands behind.
dispatch_cmd-spelled :
    (c : Call) (rest : List ℕ) → Free 0 c.arg → dispatch_cmd (spelled c ++ 0 ∷ rest) ≡ some (some c)
unfolding dispatch_cmd
dispatch_cmd-spelled c rest h = rw (
  append_assoc (name_of c.handler) (b' ' ∷ c.arg) (0 ∷ rest),
  split_at_space-append (name_of c.handler) (c.arg ++ 0 ∷ rest) (name_of-Free c.handler).0,
  c_string-append (name_of c.handler) [] (name_of-Free c.handler).1,
  find_handler-name_of c.handler,
  c_string-append c.arg rest h,
)

-- The byte behind the text is overwritten by the NUL.
set-end : (text rest : List ℕ) (o v : ℕ) → set (text ++ o ∷ rest) (length text) v ≡ text ++ v ∷ rest
set-end [] rest o v = refl
set-end (x ∷ xs) rest o v = ap (λ t. x ∷ t) (set-end xs rest o v)

-- A message that fits, and that the library could read, is dispatched with a NUL behind it.
on_publish-accepts :
    (text rest : List ℕ) (answer old : ℕ)
    → length text < rx_size
    → on_publish (length text) (pos answer) (text ++ old ∷ rest) ≡ dispatch_cmd (text ++ 0 ∷ rest)
unfolding on_publish
on_publish-accepts text rest answer old fits =
    rw (set-end text rest old 0, shorter (length text) fits) (ground arith)
  where
    shorter : (n : ℕ) → n < rx_size → leb rx_size n ≡ false
    shorter n h = ground arith

-- A message that is a command's name, a space and a value without a NUL, shorter than the buffer,
-- and that the library read without an error, calls the handler of that name with exactly that
-- value, whatever stands in the rest of the buffer.
pub on_publish-spelled :
    (c : Call) (answer old : ℕ) (rest : List ℕ)
    → Free 0 c.arg
    → length (spelled c) < rx_size
    → on_publish (length (spelled c)) (pos answer) (spelled c ++ old ∷ rest) ≡ some (some c)
on_publish-spelled c answer old rest h fits =
    on_publish-accepts (spelled c) rest answer old fits ∙ dispatch_cmd-spelled c rest h

Free-append : (b : ℕ) (xs ys : List ℕ) → Free b xs → Free b ys → Free b (xs ++ ys)
Free-append b [] ys h k = k
Free-append b (x ∷ xs) ys h k = (h.0, Free-append b xs ys h.1 k)

-- A message shorter than the buffer and without a space, read without an error into a buffer
-- whose other bytes hold no space either, makes the search for the space read behind the end of
-- the buffer.
pub on_publish-undefined :
    (text : List ℕ) (answer old : ℕ) (rest : List ℕ)
    → length text < rx_size
    → Free b' ' text
    → Free b' ' rest
    → on_publish (length text) (pos answer) (text ++ old ∷ rest) ≡ none
unfolding dispatch_cmd
on_publish-undefined text answer old rest fits h k =
    on_publish-accepts text rest answer old fits
    ∙ rw (
        split_at_space-none (text ++ 0 ∷ rest)
          (Free-append b' ' text (0 ∷ rest) h (omega arith, k)))
