-- ===== src/Driver/Write/Laws.antt =====
-- The actions of write_pump, run on the flags, the pin and the bus.
use haier_controller.Prelude.{
  ℕ, ℤ, pos, ◌≡◌, Bool, true, false, List, [], ◌∷◌, arith, not, ◌&&◌, if◌then◌else◌, ◌++◌, refl,
}
use haier_controller.Prelude.Int.{ltb_ℤ}
use haier_controller.Driver.State.{WriteRequest}
use haier_controller.Driver.Write.{
  Action, sem_reset, sem_take, pending, transmitting, enable, sleep, modbus_write, write_pump,
}

-- A write on the bus: what was sent, and the flags and the pin at that moment.
pub record Sent : Type 0 where
  pub slave_addr : ℕ
  pub addr : ℕ
  pub regs : List ℕ
  pub request : WriteRequest
  pub pin : Bool

-- The flags and the pin, and the writes so far.
pub record Line : Type 0 where
  pub request : WriteRequest
  pub pin : Bool
  pub sent : List Sent

abbrev pub act : Action → Line → Line
act sem_reset l = l
act (sem_take ms) l = l
act (pending b) l = record l {
  request = record { pending = b; transmitting = l.request.transmitting };
}
act (transmitting b) l = record l {
  request = record { pending = l.request.pending; transmitting = b };
}
act (enable b) l = record l { pin = b }
act (sleep ms) l = l
act (modbus_write slave_addr addr regs) l = record l {
  sent =
      record { slave_addr = slave_addr; addr = addr; regs = regs; request = l.request; pin = l.pin }
      ∷ l.sent;
}

abbrev pub run : List Action → Line → Line
run [] l = l
run (a ∷ as_) l = run as_ (act a l)

pub run_append : (as_ bs : List Action) (l : Line) → run (as_ ++ bs) l ≡ run bs (run as_ l)
run_append [] bs l = refl
run_append (a ∷ as_) bs l = run_append as_ bs (act a l)

abbrev pub idle : WriteRequest
idle = record { pending = false; transmitting = false }

abbrev pub busy : WriteRequest
busy = record { pending = true; transmitting = true }

-- From an idle line, write_pump comes back to an idle line with the pin low, whatever the Modbus
-- library and the semaphore answer; it sends the registers, once, with the pin high and the
-- sniffer held off, if the interface is there and the semaphore was given in time, and sends
-- nothing otherwise.
pub write_pump-run :
    (iface answer : ℤ) (taken : Bool) (slave_addr addr : ℕ) (regs : List ℕ) (sent : List Sent)
    → run
        (write_pump iface slave_addr taken answer addr regs).actions
        (record { request = idle; pin = false; sent = sent })
      ≡ record {
        request = idle;
        pin = false;
        sent =
            if taken && not (ltb_ℤ iface (pos 0))
            then record {
              slave_addr = slave_addr;
              addr = addr;
              regs = regs;
              request = busy;
              pin = true;
            }
              ∷ sent
            else sent;
      }
unfolding write_pump
write_pump-run iface answer taken slave_addr addr regs sent = ground arith
