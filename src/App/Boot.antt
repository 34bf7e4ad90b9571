-- ===== src/App/Boot.antt =====
-- main of fw/src/main.c up to its loop: the relays, and the waits for the network.
pub mod Reaches
use mathlib.Core.Path.{subst}
use mathlib.Core.Bool.{false≢true}
use mathlib.Core.Option.{some-injective}
use haier_controller.Prelude.{
  ℕ, ℤ, pos, ◌≡◌, refl, sym, ◌∙◌, Bool, true, false, ◌&&◌, ◌||◌, if◌then◌else◌, List, [], ◌∷◌,
  Option, none, some, arith, Option-cases, inl, inr, Bool-cases,
}
use haier_controller.Cmd.Types.{◌>>=◌}
use haier_controller.App.Relay.{Gpio, Pin, relay_init}
use haier_controller.App.Wifi.{
  Wifi, Event, scan_result, scan_done, connect_result, disconnect_result, addr_add,
  on_wifi_scan_result, take_channel, on_event, Phase, scanning, joining, returned, Session, proceed,
  hear, wifi_connect, wifi_wait_for_ip_addr,
}

-- The relays, the call of wifi_connect, and whether main is behind wifi_wait_for_ip_addr, where
-- it calls mqtt_init and goes round its loop.
pub record Start : Type 0 where
  pub pins : List Pin
  pub session : Session
  pub at_mqtt : Bool

-- wifi_wait_for_ip_addr, entered behind wifi_connect, whatever this returned.
abbrev pub wait_address : Start → Option Wifi → Start
wait_address m none = m
wait_address m (some w) = record m { session = record m.session { wifi = w }; at_mqtt = true }

abbrev pub go_on : Start → Phase → Start
go_on m (returned z) =
    if m.at_mqtt then m else wait_address m (wifi_wait_for_ip_addr m.session.wifi)
go_on m p = m

-- main up to its first wait that has to wait. temp_init and wifi_init come in between; they only log
-- and register callbacks.
pub main_start : List Gpio → List Pin → ℤ → ℤ → List ℕ → Wifi → Option Start
main_start gpios pins scan_ret ret ssid w = do
  s ← wifi_connect scan_ret ret ssid w
  some (go_on (record { pins = relay_init gpios pins; session = s; at_mqtt = false }) s.phase)

-- An event, and what main then does.
pub main_hears : ℤ → Event → Start → Option Start
main_hears ret e m = do s ← hear ret e m.session; some (go_on (record m { session = s }) s.phase)

pub main_hears_all : ℤ → List Event → Start → Option Start
main_hears_all ret [] m = some m
main_hears_all ret (e ∷ es) m = do m' ← main_hears ret e m; main_hears_all ret es m'
