-- ===== src/App/Wifi/Join.antt =====
-- wifi_connect, with the events that come while it waits.
use haier_controller.Prelude.{
  ℕ, ℤ, pos, ◌≡◌, refl, sym, ap, ◌∙◌, Bool, false, List, [], ◌∷◌, ◌++◌, Option, none, some, arith,
  Option-cases, inl, inr,
}
use mathlib.Core.Path.{subst}
use mathlib.Core.Bool.{false≢true}
use mathlib.Core.Option.{some-injective}
use haier_controller.Prelude.Int.{is_zero}
use haier_controller.Cmd.Types.{◌>>=◌}
use haier_controller.App.Mqtt.Laws.{Free}
use haier_controller.App.Wifi.{
  Wifi, Entry, Event, scan_result, scan_done, connect_result, disconnect_result, addr_add,
  on_wifi_scan_result, take_channel, on_event, Phase, scanning, joining, returned, Session,
  wifi_connect, proceed, started, hear, hear_all,
}
use haier_controller.App.Wifi.Scan.{IsBuffer, Holds, copy_text-Holds}

pub proceed-target_ssid :
    (ret : ℤ) (w : Wifi) (p : Phase) (ch : Option (Option ℕ))
    → (proceed ret (record { wifi = w; phase = p; channel = ch })).wifi.target_ssid ≡ w.target_ssid
unfolding proceed
proceed-target_ssid ret w scanning ch = ground arith
proceed-target_ssid ret w joining ch = ground arith
proceed-target_ssid ret w (returned z) ch = refl

abbrev connecting : ℤ → List ℕ → Wifi → Session
connecting scan_ret name w = record {
  wifi = record w { target_ssid = name; target_channel = none };
  phase = started scan_ret;
  channel = none;
}

-- For any name without a NUL, and a buffer of 32 bytes that ends in a NUL, wifi_connect copies
-- the name inside the buffer, which then holds the first 31 bytes of the name and a NUL, whatever
-- the network answers.
pub wifi_connect-Holds :
    (scan_ret ret : ℤ) (text : List ℕ) (w : Wifi)
    → Free 0 text
    → IsBuffer w.target_ssid
    → (s : Session) × (wifi_connect scan_ret ret text w ≡ some s) × Holds text s.wifi.target_ssid
unfolding wifi_connect
wifi_connect-Holds scan_ret ret text w h b =
    let (name, e, holds) = copy_text-Holds text w.target_ssid h b in
    (
      proceed ret (connecting scan_ret name w),
      rw e refl,
      subst (Holds text)
          (sym (
            proceed-target_ssid ret (record w { target_ssid = name; target_channel = none }) _
              none))
          holds,
    )

-- The library accepted the connection.
abbrev pub is_join : Event → Bool
is_join (connect_result status) = is_zero status
is_join _ = false

abbrev pub NoJoin : List Event → Type 0
NoJoin [] = Unit
NoJoin (e ∷ es) = (is_join e ≡ false) × NoJoin es

-- In the second wait, with nothing to take.
pub record IsJoining (s : Session) : Type 0 where
  pub phase : s.phase ≡ joining
  pub empty : s.wifi.sem_wifi ≡ false

on_event-empty :
    (e : Event) (w v : Wifi)
    → is_join e ≡ false
    → w.sem_wifi ≡ false
    → on_event e w ≡ some v
    → v.sem_wifi ≡ false
unfolding on_event on_wifi_scan_result take_channel
on_event-empty (scan_result e) w v h k q = ground (arith, q)
on_event-empty scan_done w v h k q = ground (arith, q)
on_event-empty (connect_result z) w v h k q = ground (arith, q)
on_event-empty (disconnect_result z) w v h k q = ground (arith, q)
on_event-empty addr_add w v h k q = ground (arith, q)

proceed-IsJoining :
    (ret : ℤ) (w : Wifi) (p : Phase) (ch : Option (Option ℕ))
    → p ≡ joining
    → w.sem_wifi ≡ false
    → IsJoining (proceed ret (record { wifi = w; phase = p; channel = ch }))
unfolding proceed
proceed-IsJoining ret w scanning ch e k = absurd (ground (arith, e))
proceed-IsJoining ret w joining ch e k = record { phase = rw k refl; empty = ground (arith, k) }
proceed-IsJoining ret w (returned z) ch e k = absurd (ground (arith, e))

hear-IsJoining :
    (ret : ℤ) (e : Event) (s t : Session)
    → is_join e ≡ false
    → IsJoining s
    → hear ret e s ≡ some t
    → IsJoining t
unfolding hear
hear-IsJoining ret e s t h j q = elim (Option-cases (on_event e s.wifi)) [
  | inl a ↦ absurd (false≢true (ground (arith, rw a at q)))
  | inr (v, a) ↦
      subst IsJoining (some-injective _ _ (rw a at q))
        (proceed-IsJoining ret v s.phase s.channel j.phase (on_event-empty e s.wifi v h j.empty a))
]

-- A call of wifi_connect that waits for the connection, with the semaphore not given, still waits
-- after any events that end and contain no successful connection: a connection that failed does
-- not end the wait.
pub hear_all-IsJoining :
    (ret : ℤ) (es : List Event) (s t : Session)
    → NoJoin es
    → IsJoining s
    → hear_all ret es s ≡ some t
    → IsJoining t
unfolding hear_all
hear_all-IsJoining ret [] s t h j q = subst IsJoining (some-injective _ _ q) j
hear_all-IsJoining ret (e ∷ es) s t h j q = elim (Option-cases (hear ret e s)) [
  | inl a ↦ absurd (false≢true (ground (arith, rw a at q)))
  | inr (u, a) ↦ hear_all-IsJoining ret es u t h.1 (hear-IsJoining ret e s u h.0 j a) (rw a at q)
]

-- The results of a scan, one after the other.
abbrev pub results : List Entry → List Event
results [] = []
results (e ∷ es) = scan_result e ∷ results es

abbrev pub scan_all : List Entry → Wifi → Option Wifi
scan_all [] w = some w
scan_all (e ∷ es) w = do v ← on_wifi_scan_result e w; scan_all es v

abbrev pub scanning_with : Wifi → Session
scanning_with w = record { wifi = w; phase = scanning; channel = none }

-- No semaphore of wifi_connect has a count.
pub record IsQuiet (w : Wifi) : Type 0 where
  pub scan : w.sem_wifi_scan ≡ false
  pub wifi : w.sem_wifi ≡ false

on_wifi_scan_result-IsQuiet :
    (e : Entry) (w v : Wifi) → IsQuiet w → on_wifi_scan_result e w ≡ some v → IsQuiet v
unfolding on_wifi_scan_result take_channel
on_wifi_scan_result-IsQuiet e w v k q = ground (arith, q, k)

hear-scan_result :
    (ret : ℤ) (e : Entry) (w v : Wifi)
    → IsQuiet v
    → on_wifi_scan_result e w ≡ some v
    → hear ret (scan_result e) (scanning_with w) ≡ some (scanning_with v)
unfolding hear on_event proceed
hear-scan_result ret e w v k q = rw q (ground (arith, k))

hear_all-results :
    (ret : ℤ) (es : List Entry) (more : List Event) (w v : Wifi)
    → IsQuiet w
    → scan_all es w ≡ some v
    → (hear_all ret (results es ++ more) (scanning_with w) ≡ hear_all ret more (scanning_with v))
      × IsQuiet v
unfolding hear_all
hear_all-results ret [] more w v k q =
    let e = some-injective _ _ q in
    (ap (λ u. hear_all ret more (scanning_with u)) e, subst IsQuiet e k)
hear_all-results ret (e ∷ es) more w v k q = elim (Option-cases (on_wifi_scan_result e w)) [
  | inl a ↦ absurd (false≢true (ground (arith, rw a at q)))
  | inr (u, a) ↦
      let quiet = on_wifi_scan_result-IsQuiet e w u k a in
      let (run, end) = hear_all-results ret es more u v quiet (rw a at q) in
      (rw (hear-scan_result ret e w u quiet a) run, end)
]

-- For a call of wifi_connect in its first wait, with no semaphore given: after any results of the
-- scan that are compared inside their arrays, the end of the scan, and the success of the
-- connection, the call has returned 0, and its request named the channel that the results left.
pub hear_all-joins :
    (es : List Entry) (w v : Wifi)
    → IsQuiet w
    → scan_all es w ≡ some v
    → hear_all (pos 0) (results es ++ scan_done ∷ connect_result (pos 0) ∷ []) (scanning_with w)
      ≡ some (record { wifi = v; phase = returned (pos 0); channel = some v.target_channel })
unfolding hear_all
hear_all-joins es w v k q =
    let (run, end) =
      hear_all-results (pos 0) es (scan_done ∷ connect_result (pos 0) ∷ []) w v k q in
    run ∙ finish v end
  where
    finish :
        (u : Wifi)
        → IsQuiet u
        → hear_all (pos 0) (scan_done ∷ connect_result (pos 0) ∷ []) (scanning_with u)
          ≡ some (record { wifi = u; phase = returned (pos 0); channel = some u.target_channel })
    finish u i = unfold hear on_event proceed in ground (arith, i)
