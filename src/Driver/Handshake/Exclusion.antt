-- ===== src/Driver/Handshake/Exclusion.antt =====
-- Who is on the bus: the invariant of two callers and the sniffer.
use haier_controller.Prelude.{◌≡◌, refl, Bool, true, false, ◌&&◌, ◌||◌, not, arith}
use haier_controller.Driver.Handshake.{
  Caller, has_reset, asks, holds, sends, clears, Sniffer, listens, rests, Shared, waiting, Move,
  resets, requests, takes, blocks, expires, gives_up, starts, ends, leaves, Turn, sleeps, enters,
  skips, stores, passes, finds, to_first, to_second, keeps, wakes, System, Step, first, second,
  sniffs, here, then_, Reach,
}

abbrev pub on_bus : Caller → Bool
on_bus sends = true
on_bus clears = true
on_bus _ = false

-- With the semaphore, and not done with the bus.
abbrev pub owns : Caller → Bool
owns holds = true
owns c = on_bus c

-- Behind its own k_sem_reset, and before its k_sem_take.
abbrev pub fresh : Caller → Bool
fresh has_reset = true
fresh asks = true
fresh _ = false

abbrev pub holding : Caller → Bool
holding holds = true
holding _ = false

abbrev pub reading : Sniffer → Bool
reading listens = false
reading rests = false
reading _ = true

abbrev resting : Sniffer → Bool
resting rests = true
resting _ = false

pub record Inv (s : Shared) (n : Sniffer) (a b : Caller) : Type 0 where
  pub flag : s.request.transmitting ≡ (on_bus a || on_bus b)
  pub alone : (owns a && owns b) ≡ false
  pub quiet : ((owns a || owns b) && reading n) ≡ false
  pub rested : ((holding a || holding b) && not (resting n)) ≡ false
  pub unowned : (s.available && (owns a || owns b || waiting a || waiting b)) ≡ false
  pub given : (s.available && (fresh a || fresh b) && not (resting n)) ≡ false

Inv-swap : {s : Shared} {n : Sniffer} {a b : Caller} → Inv s n a b → Inv s n b a
Inv-swap i = ground (arith, i)

Move-Inv :
    {s t : Shared} {n : Sniffer} {a b a' b' : Caller}
    → Move s b a t a' b'
    → Inv s n a b
    → Inv t n a' b'
Move-Inv (resets e) i = ground arith
Move-Inv requests i = ground arith
Move-Inv (takes e) i = ground arith
Move-Inv (blocks e) i = ground arith
Move-Inv expires i = ground arith
Move-Inv gives_up i = ground arith
Move-Inv starts i = ground arith
Move-Inv ends i = ground arith
Move-Inv leaves i = ground arith

Turn-Inv :
    {s t : Shared} {n m : Sniffer} {a b a' b' : Caller}
    → Turn s a b n t m a' b'
    → Inv s n a b
    → Inv t m a' b'
Turn-Inv (sleeps e) i = ground arith
Turn-Inv (enters e) i = ground arith
Turn-Inv skips i = ground arith
Turn-Inv stores i = ground arith
Turn-Inv (passes e) i = ground arith
Turn-Inv (finds e) i = ground arith
Turn-Inv (to_first e) i = ground arith
Turn-Inv (to_second e) i = ground arith
Turn-Inv (keeps e) i = ground arith
Turn-Inv (wakes e) i = ground arith

abbrev pub InvOf : System → Type 0
InvOf s = Inv s.shared s.sniffer s.one s.two

Step-Inv : {s t : System} → Step s t → InvOf s → InvOf t
Step-Inv (first m) i = Move-Inv m i
Step-Inv (second m) i = Inv-swap (Move-Inv m (Inv-swap i))
Step-Inv (sniffs t) i = Turn-Inv t i

pub Reach-Inv : {s : System} → Reach s → InvOf s
Reach-Inv here = record {
  flag = refl;
  alone = refl;
  quiet = refl;
  rested = refl;
  unowned = refl;
  given = refl;
}
Reach-Inv (then_ r st) = Step-Inv st (Reach-Inv r)

-- Never two on the bus; the flag tells whether one is; and the sniffer does not read meanwhile.
pub record IsExclusive (s : System) : Type 0 where
  pub alone : (on_bus s.one && on_bus s.two) ≡ false
  pub flag : s.shared.request.transmitting ≡ (on_bus s.one || on_bus s.two)
  pub quiet : ((on_bus s.one || on_bus s.two) && reading s.sniffer) ≡ false

-- In every state that two callers of write_pump and the sniffer can come to, interleaved in any
-- order from the start: the two callers are never on the bus together, `transmitting` is set
-- exactly while one of them is, and meanwhile the sniffer does not read the line.
pub Reach-IsExclusive : {s : System} → Reach s → IsExclusive s
Reach-IsExclusive {s} r = exclusive (Reach-Inv r)
  where
    exclusive : {t : System} → InvOf t → IsExclusive t
    exclusive i = ground arith
