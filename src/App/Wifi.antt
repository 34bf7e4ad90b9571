-- ===== src/App/Wifi.antt =====
-- fw/src/wifi.c: the events of the network, and how wifi_connect and wifi_wait_for_ip_addr wait for
-- them. What the network answers is an argument.
pub mod Scan
pub mod Join
pub mod Address
pub mod Callbacks
pub mod Report
use haier_controller.Prelude.{
  ℕ, zero, suc, ℤ, pos, Bool, true, false, not, ◌&&◌, ◌==◌, if◌then◌else◌, List, [], ◌∷◌, Option,
  none, some,
}
use haier_controller.Prelude.Int.{is_zero}
use haier_controller.Cmd.Types.{◌>>=◌}

-- `sizeof(target_ssid)`
abbrev pub ssid_size : ℕ
ssid_size = 32

-- The variables of the file; each semaphore has a limit of 1, and no channel is WIFI_CHANNEL_ANY.
pub record Wifi : Type 0 where
  pub sem_wifi : Bool
  pub sem_ipv4 : Bool
  pub sem_wifi_scan : Bool
  pub target_channel : Option ℕ
  pub target_ssid : List ℕ

-- The fields of `struct wifi_scan_result` that the code reads.
pub record Entry : Type 0 where
  pub ssid : List ℕ
  pub ssid_length : ℕ
  pub channel : ℕ

pub data Event : Type 0 where
  scan_result : Entry → Event
  scan_done : Event
  connect_result : ℤ → Event
  disconnect_result : ℤ → Event
  addr_add : Event

-- `strncmp(a, b, n) == 0`; `none` is a read behind one of the arrays.
unfoldable pub same_start : ℕ → List ℕ → List ℕ → Option Bool
same_start zero a b = some true
same_start (suc n) (x ∷ xs) (y ∷ ys) =
    let more = same_start n xs ys in
    if x == y then (if x == 0 then some true else more) else some false
same_start (suc n) _ _ = none

-- `strncpy(dst, text, n)` of a C string `text`: what is left of `n` is filled with NULs. `none` is a
-- write behind the array.
pub copy_text : ℕ → List ℕ → List ℕ → Option (List ℕ)
copy_text zero text dst = some dst
copy_text (suc n) text [] = none
copy_text (suc n) [] (d ∷ ds) = do rest ← copy_text n [] ds; some (0 ∷ rest)
copy_text (suc n) (c ∷ cs) (d ∷ ds) = do rest ← copy_text n cs ds; some (c ∷ rest)

-- `strlen(target_ssid) > 0`: the first byte is not the NUL.
abbrev pub is_named : List ℕ → Bool
is_named [] = false
is_named (c ∷ cs) = not (c == 0)

-- A match sets the channel.
unfoldable pub take_channel : Entry → Wifi → Option Bool → Option Wifi
take_channel e w compared = do
  same ← compared
  some (if same then record w { target_channel = some e.channel } else w)

unfoldable pub on_wifi_scan_result : Entry → Wifi → Option Wifi
on_wifi_scan_result e w =
    if is_named w.target_ssid
    then take_channel e w (same_start e.ssid_length e.ssid w.target_ssid)
    else some w

-- The three callbacks; k_sem_take without a wait leaves a semaphore without a count alone.
unfoldable pub on_event : Event → Wifi → Option Wifi
on_event (scan_result e) w = on_wifi_scan_result e w
on_event scan_done w = some (record w { sem_wifi_scan = true })
on_event (connect_result status) w =
    some (if is_zero status then record w { sem_wifi = true } else w)
on_event (disconnect_result status) w =
    some (if is_zero status then record w { sem_wifi = false } else w)
on_event addr_add w = some (record w { sem_ipv4 = true })

-- Where a call of wifi_connect stands: in its first wait, in the second, or back with a result.
pub data Phase : Type 0 where
  scanning joining : Phase
  returned : ℤ → Phase

-- `channel` is that of the request to connect, once it was made.
pub record Session : Type 0 where
  pub wifi : Wifi
  pub phase : Phase
  pub channel : Option (Option ℕ)

-- wifi_connect goes on as far as the semaphores let it; `ret` is the answer to the request to
-- connect.
abbrev pub joins : Session → Session
joins s =
    if s.wifi.sem_wifi
    then record {
      wifi = record s.wifi { sem_wifi = false };
      phase = returned (pos 0);
      channel = s.channel;
    }
    else s

abbrev pub requests : ℤ → Wifi → Session
requests ret w =
    if is_zero ret
    then joins (record { wifi = w; phase = joining; channel = some w.target_channel })
    else record { wifi = w; phase = returned ret; channel = some w.target_channel }

unfoldable pub proceed : ℤ → Session → Session
proceed ret s = from s.phase
  where
    from : Phase → Session
    from scanning =
        if s.wifi.sem_wifi_scan then requests ret (record s.wifi { sem_wifi_scan = false }) else s
    from joining = joins s
    from (returned z) = s

-- The answer to the request for a scan.
pub started : ℤ → Phase
started (pos n) = scanning
started z = returned z

-- wifi_connect up to its first wait that has to wait, with the answers to the request for a scan and
-- to the request to connect.
pub wifi_connect : ℤ → ℤ → List ℕ → Wifi → Option Session
wifi_connect scan_ret ret ssid w = do
  name ← copy_text 31 ssid w.target_ssid
  let named = record w { target_ssid = name; target_channel = none }
  some (proceed ret (record { wifi = named; phase = started scan_ret; channel = none }))

-- An event, and what wifi_connect then does.
unfoldable pub hear : ℤ → Event → Session → Option Session
hear ret e s = do w ← on_event e s.wifi; some (proceed ret (record s { wifi = w }))

unfoldable pub hear_all : ℤ → List Event → Session → Option Session
hear_all ret [] s = some s
hear_all ret (e ∷ es) s = do s' ← hear ret e s; hear_all ret es s'

-- The wait of wifi_wait_for_ip_addr: `none` is a call that still waits.
unfoldable pub wifi_wait_for_ip_addr : Wifi → Option Wifi
wifi_wait_for_ip_addr w = if w.sem_ipv4 then some (record w { sem_ipv4 = false }) else none
