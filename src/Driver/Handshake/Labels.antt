-- ===== src/Driver/Handshake/Labels.antt =====
-- What a caller of write_pump does in each of its moves, as actions of its code, and how the flags
-- and the semaphore go through a run of these.
use haier_controller.Prelude.{
  ℕ, ◌≡◌, refl, sym, Bool, true, false, List, [], ◌∷◌, ◌++◌, append-nil, ◌∙◌,
}
use haier_controller.Driver.Write.{
  Action, sem_reset, sem_take, pending, transmitting, enable, sleep, modbus_write,
}
use haier_controller.Driver.Write.Laws.{Line, run, run_append}
use haier_controller.Driver.Handshake.{
  Caller, Sniffer, Shared, Move, resets, requests, takes, blocks, expires, gives_up, starts, ends,
  leaves, Turn, sleeps, enters, skips, stores, passes, finds, to_first, to_second, keeps, wakes,
  System, Step, first, second, sniffs, Steps, here, then_,
}

-- Up to the end of k_sem_take.
abbrev pub to_wait : List Action
to_wait = sem_reset ∷ pending true ∷ sem_take 5000 ∷ []

-- From the sleep behind modbus_write_holding_regs up to `pending = false`.
abbrev pub off_bus : List Action
off_bus = sleep 200 ∷ enable false ∷ pending false ∷ []

-- One of the two callers.
abbrev pub caller : Bool → System → Caller
caller true s = s.one
caller false s = s.two

module _ (slave_addr addr : ℕ) (regs : List ℕ) where
  abbrev pub to_bus : List Action
  to_bus = transmitting true ∷ enable true ∷ sleep 1000 ∷ modbus_write slave_addr addr regs ∷ []

  -- What a caller does in a move of its own: k_sem_take is called once, whether it has to wait or
  -- not, and the end of the wait is the Zephyr kernel's.
  abbrev pub does : {s t : Shared} {other o a b : Caller} → Move s other a t b o → List Action
  does (resets e) = sem_reset ∷ []
  does requests = pending true ∷ []
  does (takes e) = sem_take 5000 ∷ []
  does (blocks e) = sem_take 5000 ∷ []
  does expires = []
  does gives_up = pending false ∷ []
  does starts = to_bus
  does ends = off_bus
  does leaves = transmitting false ∷ []

  -- What a caller does in a run.
  abbrev pub did : {s t : System} → Bool → Step s t → List Action
  did true (first m) = does m
  did false (second m) = does m
  did _ _ = []

  abbrev pub log : {s t : System} → Bool → Steps s t → List Action
  log who here = []
  log who (then_ r st) = log who r ++ did who st

  -- What the two did, in the order of the run.
  abbrev pub of_both : {s t : System} → Steps s t → List Action
  of_both here = []
  of_both (then_ r st) = of_both r ++ (did true st ++ did false st)

  -- The count of the semaphore after k_sem_reset, and after k_sem_take, which leaves nothing.
  abbrev taken_by : List Action → Bool → Bool
  taken_by [] count = count
  taken_by (sem_reset ∷ as_) count = taken_by as_ false
  taken_by (sem_take ms ∷ as_) count = taken_by as_ false
  taken_by (_ ∷ as_) count = taken_by as_ count

  -- The count of the semaphore in a run: k_sem_give adds one if nobody waits.
  abbrev counted : {s t : System} → Step s t → Bool → Bool
  counted (sniffs (keeps e)) count = true
  counted st count = taken_by (did true st ++ did false st) count

  abbrev pub count : {s t : System} → Steps s t → Bool → Bool
  count here before = before
  count (then_ r st) before = counted st (count r before)

  -- The flags after the actions of a move, and the count of the semaphore.
  Move-run :
      {s t : Shared} {other a b o : Caller} (m : Move s other a t b o) (l : Line)
      → l.request ≡ s.request
      → (run (does m) l).request ≡ t.request
  Move-run (resets e) l h = h
  Move-run requests l h = rw h refl
  Move-run (takes e) l h = h
  Move-run (blocks e) l h = h
  Move-run expires l h = h
  Move-run gives_up l h = rw h refl
  Move-run starts l h = rw h refl
  Move-run ends l h = rw h refl
  Move-run leaves l h = rw h refl

  Turn-request :
      {s t : Shared} {n k : Sniffer} {a b c d : Caller}
      → Turn s a b n t k c d
      → s.request ≡ t.request
  Turn-request (sleeps e) = refl
  Turn-request (enters e) = refl
  Turn-request skips = refl
  Turn-request stores = refl
  Turn-request (passes e) = refl
  Turn-request (finds e) = refl
  Turn-request (to_first e) = refl
  Turn-request (to_second e) = refl
  Turn-request (keeps e) = refl
  Turn-request (wakes e) = refl

  Step-run :
      {s t : System} (st : Step s t) (l : Line)
      → l.request ≡ s.shared.request
      → (run (did true st ++ did false st) l).request ≡ t.shared.request
  Step-run (first m) l h = rw (append-nil (does m)) (Move-run m l h)
  Step-run (second m) l h = Move-run m l h
  Step-run (sniffs t) l h = h ∙ Turn-request t

  pub Steps-run :
      {s t : System} (r : Steps s t) (l : Line)
      → l.request ≡ s.shared.request
      → (run (of_both r) l).request ≡ t.shared.request
  Steps-run here l h = h
  Steps-run (then_ r st) l h =
      rw (run_append (of_both r) (did true st ++ did false st) l)
        (Step-run st (run (of_both r) l) (Steps-run r l h))

  Move-count :
      {s t : Shared} {other a b o : Caller} (m : Move s other a t b o)
      → taken_by (does m) s.available ≡ t.available
  Move-count (resets e) = refl
  Move-count requests = refl
  Move-count (takes e) = refl
  Move-count (blocks e) = sym e
  Move-count expires = refl
  Move-count gives_up = refl
  Move-count starts = refl
  Move-count ends = refl
  Move-count leaves = refl

  Step-count : {s t : System} (st : Step s t) → counted st s.shared.available ≡ t.shared.available
  Step-count (first m) = rw (append-nil (does m)) (Move-count m)
  Step-count (second m) = Move-count m
  Step-count (sniffs (sleeps e)) = refl
  Step-count (sniffs (enters e)) = refl
  Step-count (sniffs skips) = refl
  Step-count (sniffs stores) = refl
  Step-count (sniffs (passes e)) = refl
  Step-count (sniffs (finds e)) = refl
  Step-count (sniffs (to_first e)) = refl
  Step-count (sniffs (to_second e)) = refl
  Step-count (sniffs (keeps e)) = refl
  Step-count (sniffs (wakes e)) = refl

  pub Steps-count : {s t : System} (r : Steps s t) → count r s.shared.available ≡ t.shared.available
  Steps-count here = refl
  Steps-count (then_ r st) = rw (Steps-count r) (Step-count st)
