-- ===== src/Driver/Init.antt =====
-- heatpump_init of heatpump.c. What Zephyr's calls return is an argument.
use haier_controller.Prelude.{
  ℕ, zero, suc, ℤ, pos, negsuc, ◌≡◌, refl, Bool, true, false, not, ◌&&◌, List, [], Option, none,
  some, arith, if◌then◌else◌,
}
use haier_controller.Prelude.Int.{ltb_ℤ, is_zero}
use haier_controller.Cmd.Types.{Code, of_library}
use haier_controller.Driver.State.{HeatpumpConfig, HeatpumpData}
use haier_controller.Driver.Write.{Written, write_pump}

-- What modbus_iface_get_by_name, modbus_init_client, gpio_is_ready_dt and gpio_pin_configure_dt
-- return.
pub record Board : Type 0 where
  pub iface : ℤ
  pub client : ℤ
  pub ready : Bool
  pub pin : ℤ

pub data Parity : Type 0 where
  even : Parity

-- `struct modbus_iface_param`, as it is filled in.
pub record ModbusParam : Type 0 where
  pub rx_timeout : ℕ
  pub baud : ℕ
  pub parity : Parity
  pub stop_bits : ℕ

abbrev pub client_param : HeatpumpConfig → ModbusParam
client_param cfg = record {
  rx_timeout = 500000;
  baud = cfg.baud_rate;
  parity = even;
  stop_bits = 1;
}

-- The result, the driver's data, the client that was set up, and whether the pin was configured.
pub record Started : Type 0 where
  pub code : Code
  pub driver : HeatpumpData
  pub client : Option ModbusParam
  pub output : Bool

unfoldable pub heatpump_init : HeatpumpConfig → Board → HeatpumpData → Started
heatpump_init cfg b old =
    let driver = record old { modbus_client_iface = b.iface } in
    let param = client_param cfg in
    if ltb_ℤ b.iface (pos 0)
    then record { code = Code.enodev; driver = driver; client = none; output = false }
    else (if not (is_zero b.client)
        then record { code = of_library b.client; driver = driver; client = none; output = false }
        else (if not b.ready
            then record { code = Code.enodev; driver = driver; client = some param; output = false }
            else (if ltb_ℤ b.pin (pos 0)
                then record {
                  code = of_library b.pin;
                  driver = driver;
                  client = some param;
                  output = false;
                }
                else record {
                  code = Code.success;
                  driver = driver;
                  client = some param;
                  output = true;
                })))

abbrev pub is_success : Code → Bool
is_success Code.success = true
is_success _ = false

abbrev pub is_refusal : Written → Bool
is_refusal w = no_actions w.actions
  where
    no_actions : {A : Type 0} → List A → Bool
    no_actions [] = true
    no_actions _ = false

-- What heatpump_init promises, whatever Zephyr answers.
pub record IsStarted (cfg : HeatpumpConfig) (b : Board) (old : HeatpumpData) : Type 0 where
  pub success_iff :
      is_success (heatpump_init cfg b old).code
      ≡ (not (ltb_ℤ b.iface (pos 0)) && is_zero b.client && b.ready && not (ltb_ℤ b.pin (pos 0)))
  pub output_iff : (heatpump_init cfg b old).output ≡ is_success (heatpump_init cfg b old).code
  pub registers : (heatpump_init cfg b old).driver.registers ≡ old.registers
  pub writes :
      (taken : Bool) (answer : ℤ) (addr : ℕ) (regs : List ℕ)
      → is_refusal (
          write_pump
            (heatpump_init cfg b old).driver.modbus_client_iface
            cfg.slave_addr
            taken
            answer
            addr
            regs)
        ≡ ltb_ℤ b.iface (pos 0)

code_lem : (z : ℤ) → is_zero z ≡ false → is_success (of_library z) ≡ false
code_lem (pos zero) h = ground arith
code_lem (pos (suc n)) h = refl
code_lem (negsuc n) h = refl

pin_lem : (z : ℤ) → ltb_ℤ z (pos 0) ≡ true → is_success (of_library z) ≡ false
pin_lem (pos n) h = ground arith
pin_lem (negsuc n) h = refl

-- Whatever Zephyr answers, heatpump_init succeeds exactly if the interface is there, the Modbus
-- client starts, the GPIO is ready and its pin is configured, configures the pin exactly then,
-- and keeps the registers; and write_pump afterwards does nothing exactly if the interface is not
-- there.
pub heatpump_init-IsStarted :
    (cfg : HeatpumpConfig) (b : Board) (old : HeatpumpData) → IsStarted cfg b old
unfolding heatpump_init write_pump
heatpump_init-IsStarted cfg b old = record {
  success_iff = ground (arith, code_lem b.client, pin_lem b.pin);
  output_iff = ground (arith, code_lem b.client, pin_lem b.pin);
  registers = ground arith;
  writes = λ taken answer addr regs. ground arith;
}
