-- ===== src/Examples/Wifi.antt =====
-- Networks around the controller.
use haier_controller.Prelude.{
  ℕ, pos, ◌≡◌, ◌&&◌, refl, true, false, List, [], ◌∷◌, ◌++◌, some, none, arith,
}
use haier_controller.App.Wifi.{
  Wifi, Entry, addr_add, scan_result, scan_done, connect_result, disconnect_result, same_start,
  on_wifi_scan_result, take_channel, joining, returned, Session, on_event, proceed, hear, hear_all,
}
use haier_controller.App.Wifi.Scan.{IsBuffer, on_wifi_scan_result-beginning}
use haier_controller.App.Wifi.Join.{
  IsJoining, hear_all-IsJoining, results, scanning_with, scan_all, hear_all-joins,
}
use haier_controller.App.Relay.{Pin}
use haier_controller.App.Wifi.Address.{is_returned}
use haier_controller.App.Boot.{Start, main_start, main_hears_all}
use haier_controller.App.Boot.Reaches.{AllInArrays, main_start-reaches}
use haier_controller.Examples.Topics.{zeros}

-- `home`, and the empty name.
abbrev home : List ℕ
home = b'h' ∷ b'o' ∷ b'm' ∷ b'e' ∷ []

abbrev fresh : Wifi
fresh = record {
  sem_wifi = false;
  sem_ipv4 = false;
  sem_wifi_scan = false;
  target_channel = none;
  target_ssid = zeros 32;
}

abbrev named : Wifi
named = record fresh { target_ssid = home ++ zeros 28 }

zeros-IsBuffer : IsBuffer (zeros 32)
zeros-IsBuffer = record { bytes = zeros 31; room = refl; ends = refl }

-- The network `ho`, on channel 11.
on_wifi_scan_result-beginning_example :
    on_wifi_scan_result
      (record { ssid = b'h' ∷ b'o' ∷ zeros 31; ssid_length = 2; channel = 11 })
      named
    ≡ some (record named { target_channel = some 11 })
on_wifi_scan_result-beginning_example =
    on_wifi_scan_result-beginning named (b'h' ∷ b'o' ∷ []) (zeros 31) (b'm' ∷ b'e' ∷ zeros 28) 11
      (grind arith) refl refl

abbrev joins_now : Session
joins_now = record { wifi = named; phase = joining; channel = some none }

-- A wrong password, and then a disconnection.
failed_test :
    hear_all (pos 0) (connect_result (pos 1) ∷ disconnect_result (pos 0) ∷ []) joins_now
    ≡ some joins_now
unfolding hear_all hear on_event proceed
failed_test = refl

hear_all-IsJoining_example : IsJoining joins_now
hear_all-IsJoining_example =
    hear_all-IsJoining (pos 0) (connect_result (pos 1) ∷ disconnect_result (pos 0) ∷ []) joins_now
      joins_now (refl, (refl, tt)) (record { phase = refl; empty = refl }) failed_test

abbrev at_home : Entry
at_home = record { ssid = home ++ zeros 29; ssid_length = 4; channel = 6 }

abbrev other : Entry
other = record { ssid = b'x' ∷ zeros 32; ssid_length = 1; channel = 1 }

heard : scan_all (at_home ∷ other ∷ []) named ≡ some (record named { target_channel = some 6 })
unfolding on_wifi_scan_result take_channel same_start
heard = refl

hear_all-joins_example :
    hear_all
      (pos 0)
      (results (at_home ∷ other ∷ []) ++ scan_done ∷ connect_result (pos 0) ∷ [])
      (scanning_with named)
    ≡ some (record {
      wifi = record named { target_channel = some 6 };
      phase = returned (pos 0);
      channel = some (some 6);
    })
hear_all-joins_example =
    hear_all-joins (at_home ∷ other ∷ []) named (record named { target_channel = some 6 })
      (record { scan = refl; wifi = refl }) heard

-- The address comes before the connection is reported.
boot_events_in_arrays :
    AllInArrays (addr_add ∷ scan_result at_home ∷ scan_done ∷ connect_result (pos 0) ∷ [])
boot_events_in_arrays = (tt, (grind arith, (tt, (tt, tt))))

abbrev before_boot : List Pin
before_boot = record { output = false; level = false } ∷ []

main_start-reaches_example :
    (m : Start) × (n : Start) × (main_start
        (record { ready = true; err = pos 0 } ∷ [])
        before_boot
        (pos 0)
        (pos 0)
        home
        fresh
      ≡ some m)
    × (main_hears_all
          (pos 0)
          (addr_add ∷ scan_result at_home ∷ scan_done ∷ connect_result (pos 0) ∷ [])
          m
        ≡ some n)
    × (n.at_mqtt ≡ (is_returned n.session.phase && true))
main_start-reaches_example =
    main_start-reaches (record { ready = true; err = pos 0 } ∷ []) before_boot (pos 0) (pos 0) home
      fresh (addr_add ∷ scan_result at_home ∷ scan_done ∷ connect_result (pos 0) ∷ []) (grind arith)
      zeros-IsBuffer refl boot_events_in_arrays
