-- ===== src/Driver/Uart/Cut.antt =====
-- uart_read_bytes over a line that falls silent.
use haier_controller.Prelude.{
  ℕ, suc, ◌+◌, ◌≤◌, ◌<◌, ◌≡◌, ◌==◌, refl, ◌∙◌, true, false, List, [], ◌∷◌, ◌++◌, none, some, arith,
  append_assoc, append-nil,
}
use haier_controller.Driver.Uart.{
  Poll, within, expired, needed, received, read_loop, start_time, uart_read_bytes,
}

-- The polls in which `bytes` come, each in time, and then none until the limit has passed.
pub data Cuts (limit start : ℕ) : List ℕ → List Poll → Type 0 where
  stops : (p : Poll) → p.byte ≡ none → start + limit < p.checked → Cuts limit start [] (p ∷ [])
  idle :
      {bs : List ℕ} {polls : List Poll} (p : Poll)
      → p.byte ≡ none
      → p.checked ≤ start + limit
      → Cuts limit start bs polls
      → Cuts limit start bs (p ∷ polls)
  next :
      {b : ℕ} {bs : List ℕ} {polls : List Poll} (p : Poll)
      → p.byte ≡ some b
      → p.checked ≤ start + limit
      → Cuts limit start bs polls
      → Cuts limit start (b ∷ bs) (p ∷ polls)

-- `more` and one bytes more than `bytes`.
abbrev pub beyond : List ℕ → ℕ → ℕ
beyond [] more = suc more
beyond (b ∷ bs) more = suc (beyond bs more)

suc_not_zero : (n : ℕ) → (suc n == 0) ≡ false
suc_not_zero n = ground arith

early : (limit start now : ℕ) → now ≤ start + limit → expired (within limit) start now ≡ false
unfolding expired
early limit start now h = ground arith

late : (limit start now : ℕ) → start + limit < now → expired (within limit) start now ≡ true
unfolding expired
late limit start now h = ground arith

read_loop-Cuts :
    {limit start : ℕ} {bs : List ℕ} {polls : List Poll}
    → Cuts limit start bs polls
    → (more : ℕ) (buf : List ℕ) (rest : List Poll)
    → read_loop (within limit) start (beyond bs more) buf (polls ++ rest)
      ≡ some (record { complete = false; buf = buf ++ bs; rest = rest })
unfolding read_loop needed received
read_loop-Cuts {limit} {start} (stops p none_left over) more buf rest =
    rw (late limit start p.checked over, none_left, append-nil, suc_not_zero more) refl
read_loop-Cuts {limit} {start} {bs = []} (idle p none_yet soon cuts) more buf rest =
    rw (early limit start p.checked soon, none_yet) (read_loop-Cuts cuts more buf rest)
read_loop-Cuts {limit} {start} {bs = b ∷ bs} (idle p none_yet soon cuts) more buf rest =
    rw (early limit start p.checked soon, none_yet) (read_loop-Cuts cuts more buf rest)
read_loop-Cuts {limit} {start} (next {b} {bs} p one soon cuts) more buf rest =
    rw (early limit start p.checked soon, one)
      (read_loop-Cuts cuts more (buf ++ b ∷ []) rest ∙ rw (append_assoc buf (b ∷ []) bs) refl)

-- If fewer bytes come than were asked for, and then none until the time limit has passed, a read
-- returns false with these bytes, and leaves the line behind the round in which it gave up.
pub uart_read_bytes-Cuts :
    {limit : ℕ} {bs : List ℕ} {polls : List Poll} (more : ℕ) (rest : List Poll)
    → Cuts limit (start_time (polls ++ rest)) bs polls
    → uart_read_bytes (beyond bs more) (within limit) (polls ++ rest)
      ≡ some (record { complete = false; buf = bs; rest = rest })
unfolding uart_read_bytes
uart_read_bytes-Cuts more rest cuts = read_loop-Cuts cuts more [] rest
