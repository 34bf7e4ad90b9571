-- ===== src/App/Wifi/Callbacks.antt =====
-- wifi_init: which callback it registers for which events.
use haier_controller.Prelude.{
  ◌≡◌, refl, Bool, true, false, ◌||◌, if◌then◌else◌, List, [], ◌∷◌, Option, some,
}
use haier_controller.Prelude.Int.{is_zero}
use haier_controller.App.Wifi.{
  Wifi, Event, scan_result, scan_done, connect_result, disconnect_result, addr_add,
  on_wifi_scan_result, on_event,
}

-- NET_EVENT_WIFI_SCAN_RESULT and so on; each is a bit of a mask.
pub data Kind : Type 0 where
  is_scan_result is_scan_done is_connect_result is_disconnect_result is_addr_add : Kind

abbrev pub kind : Event → Kind
kind (scan_result e) = is_scan_result
kind scan_done = is_scan_done
kind (connect_result z) = is_connect_result
kind (disconnect_result z) = is_disconnect_result
kind addr_add = is_addr_add

pub data Callback : Type 0 where
  scan_cb wifi_cb ipv4_cb : Callback

-- The bodies of on_wifi_scan_result, on_wifi_connection_event and on_ipv4_obtained, with the tests of
-- `mgmt_event`.
pub callback : Callback → Event → Wifi → Option Wifi
callback scan_cb (scan_result e) w = on_wifi_scan_result e w
callback scan_cb scan_done w = some (record w { sem_wifi_scan = true })
callback wifi_cb (connect_result z) w = some (if is_zero z then record w { sem_wifi = true } else w)
callback wifi_cb (disconnect_result z) w =
    some (if is_zero z then record w { sem_wifi = false } else w)
callback ipv4_cb addr_add w = some (record w { sem_ipv4 = true })
callback _ _ w = some w

-- The callbacks with their masks, in the order of their registration.
abbrev pub wifi_init : List (Callback × List Kind)
wifi_init =
    (scan_cb, is_scan_result ∷ is_scan_done ∷ [])
    ∷ (wifi_cb, is_connect_result ∷ is_disconnect_result ∷ [])
    ∷ (ipv4_cb, is_addr_add ∷ [])
    ∷ []

abbrev same_kind : Kind → Kind → Bool
same_kind is_scan_result is_scan_result = true
same_kind is_scan_done is_scan_done = true
same_kind is_connect_result is_connect_result = true
same_kind is_disconnect_result is_disconnect_result = true
same_kind is_addr_add is_addr_add = true
same_kind _ _ = false

abbrev masked : Kind → List Kind → Bool
masked k [] = false
masked k (m ∷ ms) = same_kind k m || masked k ms

-- The callbacks of a table whose mask has the event.
abbrev pub chosen : Kind → List (Callback × List Kind) → List Callback
chosen k [] = []
chosen k ((c, mask) ∷ rest) = if masked k mask then c ∷ chosen k rest else chosen k rest

-- Each event reaches one callback, which does what `on_event` says.
pub wifi_init-on_event :
    (e : Event) (w : Wifi)
    → (c : Callback) × (chosen (kind e) wifi_init ≡ c ∷ []) × (callback c e w ≡ on_event e w)
unfolding callback on_event
wifi_init-on_event (scan_result e) w = (scan_cb, refl, refl)
wifi_init-on_event scan_done w = (scan_cb, refl, refl)
wifi_init-on_event (connect_result z) w = (wifi_cb, refl, refl)
wifi_init-on_event (disconnect_result z) w = (wifi_cb, refl, refl)
wifi_init-on_event addr_add w = (ipv4_cb, refl, refl)
