-- ===== src/Examples/Shell.antt =====
-- Commands of the shell, and the start of the driver.
use haier_controller.Prelude.{
  ◌==◌, ◌&&◌, if◌then◌else◌, ℕ, pos, negsuc, ◌≡◌, refl, Bool, true, false, List, [], ◌∷◌, some,
  none, Option, arith, get_elem?,
}
use haier_controller.Floats.Exact.{exact}
use mathlib.Core.Option as Options
use haier_controller.Cmd.Types.{Code, HeatpumpMode}
use haier_controller.Driver.Init.{Board, IsStarted, heatpump_init-IsStarted}
use haier_controller.Driver.Device.{heatpump_api}
use haier_controller.App.Mqtt.{cmd_ch, on_publish}
use haier_controller.App.Mqtt.Sends.{command_of}
use haier_controller.App.Relay.{Pin}
use haier_controller.App.Status.{mode_value}
use haier_controller.App.Shell.{
  GetCommand, ch, dhw, mode, tank, heat, threeway, ch_target, dhw_target, set_ch, hp_set, val_int,
  cmd_set_relay,
}
use haier_controller.App.Shell.Agrees.{as_found, FindsAll, hp_set-on_publish}
use haier_controller.App.Shell.Tree.{
  get_name, sub_heatpump_get, HpCommand, get, set, hp_name, sub_heatpump, Searches, Complete,
  printed, hp, hp-asked,
}
use haier_controller.App.Shell.Relays.{switched, cmd_set_relay-wraps}
use haier_controller.Examples.Data.{
  settings, settings-IsSettings, frame141, frame141-IsFrame, blank, regs, cfg,
}
use haier_controller.Examples.Readings.{locals}
use haier_controller.Cmd.R201.Frame.{means_quiet}
use haier_controller.Examples.Topics.{decimal, numbers, zeros}

-- A search that goes through the table from its start.
same_text : List ℕ → List ℕ → Bool
same_text [] [] = true
same_text (a ∷ as_) (b ∷ bs) = a == b && same_text as_ bs
same_text _ _ = false

from_start : {C : Type 0} → List ℕ → List (List ℕ × C) → Option C
from_start name [] = none
from_start name ((n, c) ∷ rest) = if same_text name n then some c else from_start name rest

from_start-FindsAll : FindsAll from_start
unfolding from_start same_text
from_start-FindsAll set_ch = refl
from_start-FindsAll _ = refl

searches : Searches
searches = record { in_set = from_start; in_get = from_start; in_hp = from_start }

searches-Complete : Complete searches
unfolding searches from_start same_text
searches-Complete = record {
  sets = from_start-FindsAll;
  gets = λ c. by_command c;
  hps = λ c. by_table c;
}
  where
    by_command : (c : GetCommand) → searches.in_get (get_name c) sub_heatpump_get ≡ some c
    by_command ch = refl
    by_command dhw = refl
    by_command mode = refl
    by_command tank = refl
    by_command heat = refl
    by_command threeway = refl
    by_command ch_target = refl
    by_command dhw_target = refl

    by_table : (c : HpCommand) → searches.in_hp (hp_name c) sub_heatpump ≡ some c
    by_table get = refl
    by_table set = refl

hp_set-on_publish_example :
    hp_set
      (heatpump_api exact)
      numbers
      regs
      from_start
      blank
      ((b'c' ∷ b'h' ∷ []) ∷ (b'4' ∷ b'5' ∷ []) ∷ [])
    ≡ as_found (
        command_of exact numbers regs blank
          (on_publish 5 (pos 5) (b'c' ∷ b'h' ∷ b' ' ∷ b'4' ∷ b'5' ∷ 7 ∷ zeros 122)))
hp_set-on_publish_example =
    hp_set-on_publish exact numbers regs blank from_start from_start-FindsAll
      (record { handler = cmd_ch; arg = b'4' ∷ b'5' ∷ [] }) 5 7 (zeros 122) (grind arith)
      (omega arith)

-- `hp get heat` of a heat pump that heats.
hp-asked_example :
    hp
      (heatpump_api exact)
      numbers
      regs
      searches
      locals
      blank
      ((b'g' ∷ b'e' ∷ b't' ∷ []) ∷ (b'h' ∷ b'e' ∷ b'a' ∷ b't' ∷ []) ∷ [])
    ≡ some (some (printed (record { code = Code.success; line = val_int 6 })))
unfolding mode_value
hp-asked_example =
    hp-asked exact settings frame141 HeatpumpMode.quiet numbers searches regs blank 1 locals heat
      searches-Complete settings-IsSettings frame141-IsFrame refl refl refl means_quiet

abbrev off : Pin
off = record { output = true; level = false }

abbrev on : Pin
on = record { output = true; level = true }

-- `set_relay 257 1` switches the relay 1.
cmd_set_relay-wraps_example :
    (after : List Pin) × (cmd_set_relay
        (λ text. pos (decimal 0 text))
        ((b'r' ∷ []) ∷ (b'2' ∷ b'5' ∷ b'7' ∷ []) ∷ (b'1' ∷ []) ∷ [])
        (off ∷ off ∷ off ∷ [])
      ≡ some (Code.success, after))
    × ((i : ℕ)
        → get_elem? after i ≡ Options.map (switched 1 true i) (get_elem? (off ∷ off ∷ off ∷ []) i))
cmd_set_relay-wraps_example =
    cmd_set_relay-wraps (λ text. pos (decimal 0 text)) (b'r' ∷ []) (b'2' ∷ b'5' ∷ b'7' ∷ [])
      (b'1' ∷ []) 1 1 (off ∷ off ∷ off ∷ []) refl (omega arith)

-- A board without the Modbus interface.
abbrev bare : Board
bare = record { iface = negsuc 18; client = pos 0; ready = true; pin = pos 0 }

heatpump_init-IsStarted_example :
    IsStarted cfg bare (record { modbus_client_iface = pos 0; registers = regs })
heatpump_init-IsStarted_example =
    heatpump_init-IsStarted cfg bare (record { modbus_client_iface = pos 0; registers = regs })
