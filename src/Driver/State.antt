-- ===== src/Driver/State.antt =====
-- The state that the driver keeps: `struct heatpump_config`, `struct heatpump_data` and the request
-- to write. The handles of devices and the names of interfaces are Zephyr's, and left out.
use haier_controller.Prelude.{ℕ, ◌≡◌, ℤ, List, Bool, length}

pub record HeatpumpConfig : Type 0 where
  pub slave_addr : ℕ
  pub baud_rate : ℕ

pub record Regs : Type 0 where
  pub r101 : List ℕ
  pub r141 : List ℕ
  pub r201 : List ℕ
  pub r241 : List ℕ

-- The sizes of the arrays.
pub record IsRegs (r : Regs) : Type 0 where
  pub six : length r.r101 ≡ 6
  pub sixteen : length r.r141 ≡ 16
  pub one : length r.r201 ≡ 1
  pub twenty_two : length r.r241 ≡ 22

pub record HeatpumpData : Type 0 where
  pub modbus_client_iface : ℤ
  pub registers : Regs

pub record WriteRequest : Type 0 where
  pub pending : Bool
  pub transmitting : Bool
