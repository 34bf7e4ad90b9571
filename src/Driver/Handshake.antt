-- ===== src/Driver/Handshake.antt =====
-- Two callers of write_pump and the sniffer, interleaved: the flags of `write_req_data` and the
-- semaphore `write_sem` that they share. A position stands between two accesses to these.
pub mod Actions
pub mod Exclusion
pub mod Labels
pub mod Lost
pub mod Served
use haier_controller.Prelude.{◌≡◌, Bool, true, false, ◌&&◌, ◌||◌}
use haier_controller.Driver.State.{WriteRequest}

-- Where a caller of write_pump stands: outside; behind k_sem_reset; behind `pending = true`; in
-- k_sem_take; behind it, with the semaphore; behind `transmitting = true`, on the bus; behind
-- `pending = false`; behind a failed k_sem_take.
pub data Caller : Type 0 where
  outside has_reset asks waits holds sends clears timed_out : Caller

-- Where the sniffer stands: before the test of `transmitting`; reading a frame; behind
-- parse_registers for the block from 241 on; behind a successful test of `pending`; in the sleep
-- of 300 ms.
pub data Sniffer : Type 0 where
  listens reads stored gives rests : Sniffer

pub record Shared : Type 0 where
  pub request : WriteRequest
  pub available : Bool

abbrev pub set_pending : Bool → Shared → Shared
set_pending b s = record s {
  request = record { pending = b; transmitting = s.request.transmitting };
}

abbrev pub set_transmitting : Bool → Shared → Shared
set_transmitting b s = record s {
  request = record { pending = s.request.pending; transmitting = b };
}

abbrev pub set_available : Bool → Shared → Shared
set_available b s = record s { available = b }

-- k_sem_reset ends the k_sem_take of whoever waits, with an error.
abbrev pub aborted : Caller → Caller
aborted waits = timed_out
aborted c = c

-- A caller between two waits of its own runs on; the others are at a wait, or outside.
abbrev pub settled : Caller → Bool
settled outside = true
settled waits = true
settled sends = true
settled _ = false

abbrev pub waiting : Caller → Bool
waiting waits = true
waiting _ = false

-- A step of a caller, beside another one.
pub data Move (s : Shared) (other : Caller) : Caller → Shared → Caller → Caller → Type 0 where
  resets :
      {o : Caller} → o ≡ aborted other → Move s other outside (set_available false s) has_reset o
  requests : Move s other has_reset (set_pending true s) asks other
  takes : s.available ≡ true → Move s other asks (set_available false s) holds other
  blocks : s.available ≡ false → Move s other asks s waits other
  expires : Move s other waits s timed_out other
  gives_up : Move s other timed_out (set_pending false s) outside other
  starts : Move s other holds (set_transmitting true s) sends other
  ends : Move s other sends (set_pending false s) clears other
  leaves : Move s other clears (set_transmitting false s) outside other

-- A step of the sniffer. k_sem_give hands the semaphore to a caller that waits, if there is one. The
-- sleep of 300 ms is long enough for each caller to reach its next wait.
pub data Turn (s : Shared) (a b : Caller)
    : Sniffer → Shared → Sniffer → Caller → Caller → Type 0 where
  sleeps : s.request.transmitting ≡ true → Turn s a b listens s listens a b
  enters : s.request.transmitting ≡ false → Turn s a b listens s reads a b
  skips : Turn s a b reads s listens a b
  stores : Turn s a b reads s stored a b
  passes : s.request.pending ≡ false → Turn s a b stored s listens a b
  finds : s.request.pending ≡ true → Turn s a b stored s gives a b
  to_first : a ≡ waits → Turn s a b gives s rests holds b
  to_second : b ≡ waits → Turn s a b gives s rests a holds
  keeps : (waiting a || waiting b) ≡ false → Turn s a b gives (set_available true s) rests a b
  wakes : (settled a && settled b) ≡ true → Turn s a b rests s listens a b

pub record System : Type 0 where
  pub shared : Shared
  pub sniffer : Sniffer
  pub one : Caller
  pub two : Caller

pub data Step (s : System) : System → Type 0 where
  first :
      {m : Shared} {a b : Caller}
      → Move s.shared s.two s.one m a b
      → Step s (record { shared = m; sniffer = s.sniffer; one = a; two = b })
  second :
      {m : Shared} {a b : Caller}
      → Move s.shared s.one s.two m b a
      → Step s (record { shared = m; sniffer = s.sniffer; one = a; two = b })
  sniffs :
      {m : Shared} {n : Sniffer} {a b : Caller}
      → Turn s.shared s.one s.two s.sniffer m n a b
      → Step s (record { shared = m; sniffer = n; one = a; two = b })

-- Nothing is pending, and the semaphore has its initial count of 0.
abbrev pub init : System
init = record {
  shared = record { request = record { pending = false; transmitting = false }; available = false };
  sniffer = listens;
  one = outside;
  two = outside;
}

pub data Steps (s : System) : System → Type 0 where
  here : Steps s s
  then_ : {t u : System} → Steps s t → Step t u → Steps s u

abbrev pub Reach : System → Type 0
Reach = Steps init
