-- ===== src/Driver/Handshake/Actions.antt =====
-- The moves of a caller against the code of write_pump: what each of them does to the flags, the
-- semaphore, the pin and the bus.
use haier_controller.Prelude.{ℕ, ℤ, ◌≡◌, Bool, true, List, [], ◌∷◌, ◌++◌}
use haier_controller.Driver.Write.{Action, sem_reset, pending, write_pump}
use haier_controller.Driver.Handshake.{
  Caller, outside, has_reset, asks, waits, holds, sends, clears, timed_out,
}
use haier_controller.Driver.Handshake.Labels.{to_wait, to_bus, off_bus}

module _ (slave_addr addr : ℕ) (regs : List ℕ) where
  -- What a caller did in the call that it is in.
  abbrev pub so_far : Caller → List Action
  so_far outside = []
  so_far has_reset = sem_reset ∷ []
  so_far asks = sem_reset ∷ pending true ∷ []
  so_far waits = to_wait
  so_far holds = to_wait
  so_far timed_out = to_wait
  so_far sends = to_wait ++ to_bus slave_addr addr regs
  so_far clears = to_wait ++ (to_bus slave_addr addr regs ++ off_bus)

  -- Finished calls of write_pump, one after the other.
  pub data Calls (iface answer : ℤ) : List Action → Type 0 where
    no_calls : Calls iface answer []
    call :
        {done : List Action} (taken : Bool)
        → Calls iface answer done
        → Calls iface answer (done ++ (write_pump iface slave_addr taken answer addr regs).actions)

  -- Finished calls, and what the caller did in the call that it is in.
  pub record IsWriting (iface answer : ℤ) (l : List Action) (c : Caller) : Type 0 where
    pub done : List Action
    pub calls : Calls iface answer done
    pub rest : l ≡ done ++ so_far c
