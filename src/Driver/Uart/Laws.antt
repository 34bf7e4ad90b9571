-- ===== src/Driver/Uart/Laws.antt =====
-- What uart_read_bytes returns, for bytes that come in time and for any polls.
use mathlib.Core.List.{append_assoc, append-nil}
use haier_controller.Prelude.{
  ℕ, zero, suc, ◌+◌, min, ◌≤◌, ◌≡◌, refl, ◌∙◌, true, false, ◌==◌, List, [], ◌∷◌, ◌++◌, Option, none,
  some, arith, length, length-append,
}
use haier_controller.Driver.Uart.{
  Poll, Timeout, within, expired, Read, needed, received, read_loop, start_time, uart_read_bytes,
}

-- The polls in which `bytes` come one after the other, each before the limit has passed.
pub data Spells (limit start : ℕ) : List ℕ → List Poll → Type 0 where
  done : Spells limit start [] []
  idle :
      {b : ℕ} {bs : List ℕ} {polls : List Poll} (p : Poll)
      → p.byte ≡ none
      → p.checked ≤ start + limit
      → Spells limit start (b ∷ bs) polls
      → Spells limit start (b ∷ bs) (p ∷ polls)
  next :
      {b : ℕ} {bs : List ℕ} {polls : List Poll} (p : Poll)
      → p.byte ≡ some b
      → p.checked ≤ start + limit
      → Spells limit start bs polls
      → Spells limit start (b ∷ bs) (p ∷ polls)

in_time : (limit start now : ℕ) → now ≤ start + limit → expired (within limit) start now ≡ false
unfolding expired
in_time limit start now h = ground arith

read_loop-Spells :
    {limit start : ℕ} {bs : List ℕ} {polls : List Poll}
    → Spells limit start bs polls
    → (buf : List ℕ) (rest : List Poll)
    → read_loop (within limit) start (length bs) buf (polls ++ rest)
      ≡ some (record { complete = true; buf = buf ++ bs; rest = rest })
unfolding read_loop needed received
read_loop-Spells done buf rest = rw append-nil
read_loop-Spells {limit} {start} (idle p none_yet early more) buf rest =
    rw (in_time limit start p.checked early, none_yet) (read_loop-Spells more buf rest)
read_loop-Spells {limit} {start} (next {b} {bs} p one early more) buf rest =
    rw (in_time limit start p.checked early, one)
      (read_loop-Spells more (buf ++ b ∷ []) rest ∙ rw (append_assoc buf (b ∷ []) bs))

-- If the bytes asked for come one after the other, with any idle rounds in between, and no round
-- ends after the time limit, uart_read_bytes returns true with exactly these bytes, and leaves
-- the line behind the last one.
pub uart_read_bytes-Spells :
    {limit : ℕ} {bs : List ℕ} {polls : List Poll} (rest : List Poll)
    → Spells limit (start_time (polls ++ rest)) bs polls
    → uart_read_bytes (length bs) (within limit) (polls ++ rest)
      ≡ some (record { complete = true; buf = bs; rest = rest })
unfolding uart_read_bytes start_time
uart_read_bytes-Spells rest more = read_loop-Spells more [] rest

-- A read of `len` bytes that ended: it took at most `len`, says that it is complete exactly when it
-- took `len`, and used up a round for each byte, and at least one if it had to read at all.
pub record IsRead (len : ℕ) (polls : List Poll) (r : Read) : Type 0 where
  pub at_most : length r.buf ≤ len
  pub complete_iff : r.complete ≡ (length r.buf == len)
  pub used : length r.rest + length r.buf ≤ length polls
  pub progress : length r.rest + min len 1 ≤ length polls

-- The same of the loop, which starts with bytes in the buffer.
record IsLoop (start need : ℕ) (polls : List Poll) (r : Read) : Type 0 where
  at_most : length r.buf ≤ start + need
  complete_iff : r.complete ≡ (length r.buf == start + need)
  used : length r.rest + length r.buf ≤ length polls + start
  kept : start ≤ length r.buf

needed-received :
    (b : Option ℕ) (n : ℕ) (buf : List ℕ)
    → length (received b buf) + needed b n ≡ length buf + suc n
unfolding needed received
needed-received none n buf = refl
needed-received (some b) n buf = omega (arith, length-append buf (b ∷ []))

needed-le : (b : Option ℕ) (n : ℕ) → needed b n ≤ suc n
unfolding needed
needed-le none n = omega arith
needed-le (some b) n = omega arith

consumed :
    (b : Option ℕ) (buf : List ℕ)
    → (length buf ≤ length (received b buf)) × (length (received b buf) ≤ length buf + 1)
unfolding received
consumed none buf = omega arith
consumed (some b) buf = omega (arith, length-append buf (b ∷ []))

read_loop-IsLoop :
    (polls : List Poll) (timeout : Timeout) (start need : ℕ) (buf : List ℕ) (r : Read)
    → read_loop timeout start need buf polls ≡ some r
    → IsLoop (length buf) need polls r
unfolding read_loop
read_loop-IsLoop polls timeout start zero buf r e = ground arith
read_loop-IsLoop [] timeout start (suc n) buf r e = absurd (cc)
read_loop-IsLoop (p ∷ polls) timeout start (suc n) buf r e = ground (
  arith,
  needed-received p.byte n buf,
  needed-le p.byte n,
  consumed p.byte buf,
  read_loop-IsLoop polls timeout start (needed p.byte n) (received p.byte buf) r,
)

-- At least one round is used up, if there is anything to read.
read_loop-lt :
    (p : Poll) (polls : List Poll) (timeout : Timeout) (start n : ℕ) (buf : List ℕ) (r : Read)
    → read_loop timeout start (suc n) buf (p ∷ polls) ≡ some r
    → length r.rest ≤ length polls
unfolding read_loop
read_loop-lt p polls timeout start n buf r e = ground (
  arith,
  consumed p.byte buf,
  read_loop-IsLoop polls timeout start (needed p.byte n) (received p.byte buf) r,
)

-- A call of uart_read_bytes that returned, whatever its time limit, never stored more bytes than
-- asked for, returned true exactly if it stored all of them, and used up a round for each byte,
-- and at least one if it was asked for a byte at all.
pub uart_read_bytes-IsRead :
    (len : ℕ) (timeout : Timeout) (polls : List Poll) (r : Read)
    → uart_read_bytes len timeout polls ≡ some r
    → IsRead len polls r
unfolding uart_read_bytes start_time
uart_read_bytes-IsRead zero timeout polls r e =
    ground (arith, read_loop-IsLoop polls timeout (start_time polls) 0 [] r e)
uart_read_bytes-IsRead (suc n) timeout [] r e = unfold read_loop in absurd (cc)
uart_read_bytes-IsRead (suc n) timeout (p ∷ polls) r e = ground (
  arith,
  read_loop-IsLoop (p ∷ polls) timeout p.started (suc n) [] r e,
  read_loop-lt p polls timeout p.started n [] r e,
)
