-- ===== src/Driver/Write.antt =====
-- write_pump of heatpump.c: what it does to the shared flags, to the enable pin and to the bus, in
-- order, with the answers of k_sem_take and of modbus_write_holding_regs as arguments.
pub mod Laws
pub mod Performed
use haier_controller.Prelude.{ℕ, ℤ, pos, negsuc, Bool, true, false, List, [], ◌∷◌}
use haier_controller.Prelude.Int.{ltb_ℤ}
use haier_controller.Prelude.{if◌then◌else◌}
use haier_controller.Cmd.Types.{Code, of_library}

pub data Action : Type 0 where
  sem_reset : Action
  sem_take : ℕ → Action
  pending transmitting enable : Bool → Action
  sleep : ℕ → Action
  modbus_write : ℕ → ℕ → List ℕ → Action

-- The code of the call, and what it did.
pub record Written : Type 0 where
  pub code : Code
  pub actions : List Action

unfoldable pub write_pump : ℤ → ℕ → Bool → ℤ → ℕ → List ℕ → Written
write_pump iface slave_addr taken answer addr regs =
    if ltb_ℤ iface (pos 0)
    then record { code = Code.einval; actions = [] }
    else (if taken
        then record {
          code = of_library answer;
          actions =
              sem_reset
              ∷ pending true
              ∷ sem_take 5000
              ∷ transmitting true
              ∷ enable true
              ∷ sleep 1000
              ∷ modbus_write slave_addr addr regs
              ∷ sleep 200
              ∷ enable false
              ∷ pending false
              ∷ transmitting false
              ∷ [];
        }
        else record {
          code = Code.etimedout;
          actions = sem_reset ∷ pending true ∷ sem_take 5000 ∷ pending false ∷ [];
        })
