-- ===== src/App/Shell.antt =====
-- The commands of fw/src/shell.c: `hp set`, `hp get` and `set_relay`. `argv` holds the texts of the
-- command; the number of them is `argc`.
pub mod Agrees
pub mod Shows
pub mod Relays
pub mod Tree
use haier_controller.Prelude.{
  ℕ, zero, suc, ◌-◌, ◌%◌, ℤ, pos, negsuc, Bool, true, false, ◌!=◌, leb, u8, if◌then◌else◌, List, [],
  ◌∷◌, Option, none, some, length, get_elem?,
}
use haier_controller.Prelude.Int.{ltb_ℤ, is_zero}
use haier_controller.Floats.{Floats}
use haier_controller.Cmd.Types.{
  Code, success, einval, etimedout, enodev, enotsock, library, ◌>>=◌, HeatpumpStatus, TiToInfo,
}
use haier_controller.Driver.State.{Regs}
use haier_controller.Driver.Api.{Plan}
use haier_controller.Driver.Device.{
  DriverApi, heatpump_get_3way, heatpump_read_ch_temp, heatpump_read_dhw_temp,
  heatpump_read_dhw_target_temp, heatpump_read_mode, heatpump_read_twi_two, heatpump_read_status,
  heatpump_set_ch_temp, heatpump_set_dhw_temp, heatpump_set_mode, heatpump_set_state,
}
use haier_controller.App.Mqtt.{Numbers}
use haier_controller.App.Status.{mode_value, threeway_value, bool_value, Locals}
use haier_controller.App.Relay.{Pin, relay_count, set_relay_state}

-- What a command prints behind `VAL=` or `ERR=`.
pub data Line (Float : Type 0) : Type 0 where
  val_float : Float → Line Float
  val_int : ℕ → Line Float
  err_line : Code → Line Float

-- What a command returns, and the line that it prints.
pub record Shown (Float : Type 0) : Type 0 where
  pub code : Code
  pub line : Line Float

abbrev pub shown : {Float : Type 0} → Line Float → Option (Shown Float)
shown l = some (record { code = Code.success; line = l })

abbrev is_negative : Code → Bool
is_negative success = false
is_negative einval = true
is_negative etimedout = true
is_negative enodev = true
is_negative enotsock = true
is_negative (library z) = ltb_ℤ z (pos 0)

-- The end of a command that stops at an error.
abbrev pub shown_unless : {Float : Type 0} → Code → Line Float → Option (Shown Float)
shown_unless err l =
    if is_negative err then some (record { code = err; line = err_line err }) else shown l

-- `(uint8_t)` of a `long`
abbrev pub u8_of_ℤ : ℤ → ℕ
u8_of_ℤ (pos n) = n % 256
u8_of_ℤ (negsuc n) = 255 - n % 256

pub data GetCommand : Type 0 where
  ch dhw mode tank heat threeway ch_target dhw_target : GetCommand

pub data SetCommand : Type 0 where
  set_ch set_dhw set_mode set_state : SetCommand

-- The names of the subcommands of `hp set`, as bytes.
abbrev pub set_name : SetCommand → List ℕ
set_name set_ch = b'c' ∷ b'h' ∷ []
set_name set_dhw = b'd' ∷ b'h' ∷ b'w' ∷ []
set_name set_mode = b'm' ∷ b'o' ∷ b'd' ∷ b'e' ∷ []
set_name set_state = b's' ∷ b't' ∷ b'a' ∷ b't' ∷ b'e' ∷ []

abbrev entry : SetCommand → List ℕ × SetCommand
entry c = (set_name c, c)

abbrev pub sub_heatpump_set : List (List ℕ × SetCommand)
sub_heatpump_set = entry set_ch ∷ entry set_dhw ∷ entry set_mode ∷ entry set_state ∷ []

-- Zephyr's search of a table of subcommands for a name.
abbrev pub Search : Type 0
Search = List ℕ → List (List ℕ × SetCommand) → Option SetCommand

-- A wrong number of arguments: -EINVAL, and no call of the driver.
abbrev usage : Option Plan
usage = some (record { code = Code.einval; write = none })

module _ {F : Floats} (api : DriverApi F) (n : Numbers F) (r : Regs) where
  pub cmd_set_ch : List ℕ → List (List ℕ) → Option Plan
  cmd_set_ch regs argv =
      if length argv != 2
      then usage
      else do val ← get_elem? argv 1; heatpump_set_ch_temp api r (n.strtof val) regs

  pub cmd_set_dhw : List ℕ → List (List ℕ) → Option Plan
  cmd_set_dhw regs argv =
      if length argv != 2
      then usage
      else do val ← get_elem? argv 1; heatpump_set_dhw_temp api r (n.strtof val) regs

  pub cmd_set_mode : List ℕ → List (List ℕ) → Option Plan
  cmd_set_mode regs argv =
      if length argv != 2
      then usage
      else do val ← get_elem? argv 1; heatpump_set_mode api (n.strtol val) regs

  pub cmd_set_state : List ℕ → List (List ℕ) → Option Plan
  cmd_set_state regs argv =
      if length argv != 2
      then usage
      else do val ← get_elem? argv 1; heatpump_set_state api r (n.strtol val) regs

  pub run_set : SetCommand → List ℕ → List (List ℕ) → Option Plan
  run_set set_ch regs argv = cmd_set_ch regs argv
  run_set set_dhw regs argv = cmd_set_dhw regs argv
  run_set set_mode regs argv = cmd_set_mode regs argv
  run_set set_state regs argv = cmd_set_state regs argv

  -- `hp set …`; the inner `none` is a name that is not found.
  pub hp_set : Search → List ℕ → List (List ℕ) → Option (Option Plan)
  hp_set find regs argv = do name ← get_elem? argv 0; found (find name sub_heatpump_set)
    where
      found : Option SetCommand → Option (Option Plan)
      found none = some none
      found (some c) = do p ← run_set c regs argv; some (some p)

module _ {F : Floats} (api : DriverApi F) (r : Regs) where
  -- `locals` is what the local variables held before.
  pub hp_get : Locals F → GetCommand → Option (Shown F.Float)
  hp_get locals ch = do
    (err, info) ← heatpump_read_twi_two api r locals.info
    shown_unless err (val_float info.ti)
  hp_get locals dhw = do temp ← heatpump_read_dhw_temp api r locals.temp; shown (val_float temp)
  hp_get locals mode = do m ← heatpump_read_mode api r; shown (val_int (mode_value m))
  hp_get locals tank = do
    (err, out) ← heatpump_read_status api r (some locals.stat)
    stat ← out
    shown_unless err (val_int (bool_value stat.has_tank))
  hp_get locals heat = do
    (err, out) ← heatpump_read_status api r (some locals.stat)
    stat ← out
    shown_unless err (val_int (mode_value stat.heat_mode))
  hp_get locals threeway = do
    valve ← heatpump_get_3way api r
    shown (val_int (threeway_value valve))
  hp_get locals ch_target = do
    temp ← heatpump_read_ch_temp api r locals.temp
    shown (val_float temp)
  hp_get locals dhw_target = do
    temp ← heatpump_read_dhw_target_temp api r locals.temp
    shown (val_float temp)

-- `set_relay`: the code, and the pins.
pub cmd_set_relay : (List ℕ → ℤ) → List (List ℕ) → List Pin → Option (Code × List Pin)
cmd_set_relay strtol argv pins = if length argv != 3 then some (Code.einval, pins) else do
  relay_text ← get_elem? argv 1
  enable_text ← get_elem? argv 2
  let relay = u8_of_ℤ (strtol relay_text)
  let enable = if is_zero (strtol enable_text) then false else true
  some (
      if leb relay_count relay
      then (Code.einval, pins)
      else (Code.success, set_relay_state relay enable pins))
