-- ===== src/Driver/Handshake/Served.antt =====
-- The way of a lone caller to the bus.
use haier_controller.Prelude.{ℕ, suc, ◌≡◌, refl, true, false, arith}
use haier_controller.Driver.Handshake.{
  Caller, outside, waits, holds, sends, Sniffer, listens, reads, stored, gives, rests, Shared, Move,
  starts, Turn, enters, stores, finds, to_first, wakes, System, Reach,
}
use haier_controller.Driver.Handshake.Exclusion.{Reach-Inv}

-- The first caller comes to the bus while the second stays outside: it waits during at most the
-- given number of turns of the sniffer, until one of them hands it the semaphore, and then it sets
-- `transmitting` and begins to send. Nothing else happens: no time-out, no further call.
pub data Arrives : ℕ → Shared → Sniffer → Caller → Type 0 where
  on_bus :
      {left : ℕ} {m t : Shared} {n : Sniffer}
      → Move m outside holds t sends outside
      → Arrives left m n holds
  turn :
      {left : ℕ} {m t : Shared} {n k : Sniffer} {c : Caller}
      → Turn m waits outside n t k c outside
      → Arrives left t k c
      → Arrives (suc left) m n waits

module _ (m : Shared) (asked : m.request.pending ≡ true)
    (free : m.request.transmitting ≡ false) where
  gives-Arrives : (left : ℕ) → Arrives (suc left) m gives waits
  gives-Arrives left = turn (to_first refl) (on_bus starts)

  stored-Arrives : (left : ℕ) → Arrives (suc (suc left)) m stored waits
  stored-Arrives left = turn (finds asked) (gives-Arrives left)

  reads-Arrives : (left : ℕ) → Arrives (suc (suc (suc left))) m reads waits
  reads-Arrives left = turn stores (stored-Arrives left)

  listens-Arrives : (left : ℕ) → Arrives (suc (suc (suc (suc left)))) m listens waits
  listens-Arrives left = turn (enters free) (reads-Arrives left)

  from_anywhere : (n : Sniffer) → Arrives 5 m n waits
  from_anywhere listens = listens-Arrives 1
  from_anywhere reads = reads-Arrives 2
  from_anywhere stored = stored-Arrives 3
  from_anywhere gives = gives-Arrives 4
  from_anywhere rests = turn (wakes refl) (listens-Arrives 0)

-- From every state that can be come to in which the first caller waits for the semaphore with its
-- request pending, and the other caller is outside, at most five turns of the sniffer, and
-- nothing but these, can bring the first caller the semaphore, with which it goes on the bus in
-- its next step.
pub waits-Arrives :
    {s : System}
    → Reach s
    → s.one ≡ waits
    → s.two ≡ outside
    → s.shared.request.pending ≡ true
    → Arrives 5 s.shared s.sniffer s.one
waits-Arrives {s} r ea eb asked = rw ea (from_anywhere s.shared asked free s.sniffer)
  where
    free : s.shared.request.transmitting ≡ false
    free = ground (arith, (Reach-Inv r).flag)
