-- ===== src/Driver/Write/Performed.antt =====
-- A setter of the driver with its call of write_pump: what comes back, and what is done.
use haier_controller.Prelude.{
  ℕ, ℤ, pos, ◌≡◌, refl, Bool, true, false, ◌&&◌, not, if◌then◌else◌, List, [], ◌∷◌, Option, none,
  some,
}
use haier_controller.Prelude.Int.{ltb_ℤ}
use haier_controller.Cmd.Types.{Code}
use haier_controller.Driver.Api.{Plan}
use haier_controller.Driver.Write.{Written, write_pump}
use haier_controller.Driver.Write.Laws.{Sent, Line, run, idle, busy, write_pump-run}

-- The setter returns its own code, not that of write_pump.
unfoldable pub performed : ℤ → ℕ → Bool → ℤ → Plan → Written
performed iface slave_addr taken answer plan = with_write plan.write
  where
    with_write : Option (ℕ × List ℕ) → Written
    with_write none = record { code = plan.code; actions = [] }
    with_write (some (addr, regs)) = record {
      code = plan.code;
      actions = (write_pump iface slave_addr taken answer addr regs).actions;
    }

-- The line after the setter, from an idle one.
abbrev pub idle_line : List Sent → Line
idle_line sent = record { request = idle; pin = false; sent = sent }

-- The writes after a call that could send `regs`: one more, if the interface is there and the
-- semaphore was given in time.
abbrev pub sent_if : ℤ → ℕ → Bool → ℕ → List ℕ → List Sent → List Sent
sent_if iface slave_addr taken addr regs sent =
    if taken && not (ltb_ℤ iface (pos 0))
    then record { slave_addr = slave_addr; addr = addr; regs = regs; request = busy; pin = true }
      ∷ sent
    else sent

-- What a call comes to that reports success, and may have sent `regs`.
pub record IsCarriedOut (iface : ℤ) (slave_addr : ℕ) (taken : Bool) (answer : ℤ) (plan : Plan)
    (addr : ℕ) (regs : List ℕ) : Type 0 where
  pub code : (performed iface slave_addr taken answer plan).code ≡ Code.success
  pub line :
      (sent : List Sent)
      → run (performed iface slave_addr taken answer plan).actions (idle_line sent)
        ≡ idle_line (sent_if iface slave_addr taken addr regs sent)

pub performed-IsCarriedOut :
    (iface answer : ℤ) (taken : Bool) (slave_addr addr : ℕ) (regs : List ℕ)
    → IsCarriedOut iface slave_addr taken answer
        (record { code = Code.success; write = some (addr, regs) })
        addr
        regs
unfolding performed
performed-IsCarriedOut iface answer taken slave_addr addr regs = record {
  code = refl;
  line = λ sent. write_pump-run iface answer taken slave_addr addr regs sent;
}
