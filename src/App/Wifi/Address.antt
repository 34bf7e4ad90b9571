-- ===== src/App/Wifi/Address.antt =====
-- The address, and the arrays, over any events of the network.
use mathlib.Core.Path.{subst}
use mathlib.Core.Bool.{false≢true}
use mathlib.Core.Option.{some-injective}
use haier_controller.Prelude.{
  ℕ, zero, suc, ◌≤◌, ◌==◌, length, ℤ, ◌≡◌, refl, ◌∙◌, Bool, true, false, ◌||◌, List, [], ◌∷◌,
  Option, none, some, arith, Option-cases, inl, inr, Bool-cases,
}
use haier_controller.Prelude.Int.{is_zero}
use haier_controller.App.Wifi.{
  copy_text, started, ssid_size, same_start, is_named, Wifi, Event, scan_result, scan_done,
  connect_result, disconnect_result, addr_add, on_wifi_scan_result, take_channel, on_event, Phase,
  scanning, joining, returned, Session, proceed, hear, wifi_connect,
}

abbrev pub is_returned : Phase → Bool
is_returned (returned z) = true
is_returned _ = false

abbrev pub is_address : Event → Bool
is_address addr_add = true
is_address _ = false

pub on_event-ipv4 :
    (e : Event) (w v : Wifi) → on_event e w ≡ some v → v.sem_ipv4 ≡ (is_address e || w.sem_ipv4)
unfolding on_event on_wifi_scan_result take_channel
on_event-ipv4 (scan_result e) w v q = ground (arith, q)
on_event-ipv4 scan_done w v q = ground (arith, q)
on_event-ipv4 (connect_result z) w v q = ground (arith, q)
on_event-ipv4 (disconnect_result z) w v q = ground (arith, q)
on_event-ipv4 addr_add w v q = ground (arith, q)

pub proceed-ipv4 :
    (ret : ℤ) (w : Wifi) (p : Phase) (ch : Option (Option ℕ))
    → ((proceed ret (record { wifi = w; phase = p; channel = ch })).wifi.sem_ipv4 ≡ w.sem_ipv4)
      × (is_returned p ≡ true
          → is_returned (proceed ret (record { wifi = w; phase = p; channel = ch })).phase ≡ true)
unfolding proceed
proceed-ipv4 ret w scanning ch = ground arith
proceed-ipv4 ret w joining ch = ground arith
proceed-ipv4 ret w (returned z) ch = ground arith

pub hear-ipv4 :
    (ret : ℤ) (e : Event) (s t : Session)
    → hear ret e s ≡ some t
    → (t.wifi.sem_ipv4 ≡ (is_address e || s.wifi.sem_ipv4))
      × (is_returned s.phase ≡ true → is_returned t.phase ≡ true)
unfolding hear
hear-ipv4 ret e s t q = elim (Option-cases (on_event e s.wifi)) [
  | inl a ↦ absurd (false≢true (ground (arith, rw a at q)))
  | inr (v, a) ↦
      let (same, still) = proceed-ipv4 ret v s.phase s.channel in
      let done = some-injective _ _ (rw a at q) in
      subst
        (λ (u : Session).
          (u.wifi.sem_ipv4 ≡ (is_address e || s.wifi.sem_ipv4))
          × (is_returned s.phase ≡ true → is_returned u.phase ≡ true))
        done (same ∙ on_event-ipv4 e s.wifi v a, still)
]

-- A scan result whose name is as long as it says, and not longer than the array it is compared with.
abbrev pub InArrays : Event → Type 0
InArrays (scan_result e) = (e.ssid_length ≤ length e.ssid) × (e.ssid_length ≤ ssid_size)
InArrays _ = Unit

same_start-total :
    (n : ℕ) (a b : List ℕ)
    → n ≤ length a
    → n ≤ length b
    → (same : Bool) × (same_start n a b ≡ some same)
unfolding same_start
same_start-total zero a b h k = (true, refl)
same_start-total (suc n) [] b h k = absurd (omega arith)
same_start-total (suc n) (x ∷ xs) [] h k = absurd (omega arith)
same_start-total (suc n) (x ∷ xs) (y ∷ ys) h k =
    let (same, e) = same_start-total n xs ys (omega arith) (omega arith) in
    elim (Bool-cases (x == y)) [
      | inl p ↦ elim (Bool-cases (x == 0)) [
        | inl z ↦ (true, rw (p, z) refl)
        | inr z ↦ (same, rw (p, z) e)
      ]
      | inr p ↦ (false, rw p refl)
    ]

pub on_event-total :
    (e : Event) (w : Wifi)
    → InArrays e
    → length w.target_ssid ≡ ssid_size
    → (v : Wifi) × (on_event e w ≡ some v) × (length v.target_ssid ≡ ssid_size)
unfolding on_event on_wifi_scan_result take_channel
on_event-total (scan_result e) w h k =
    let (same, q) = same_start-total e.ssid_length e.ssid w.target_ssid h.0 (omega (arith, h, k)) in
    elim (Bool-cases (is_named w.target_ssid)) [
      | inl p ↦ elim (Bool-cases same) [
        | inl z ↦ (record w { target_channel = some e.channel }, rw (p, q, z) refl, k)
        | inr z ↦ (w, rw (p, q, z) refl, k)
      ]
      | inr p ↦ (w, rw p refl, k)
    ]
on_event-total scan_done w h k = (_, refl, k)
on_event-total (connect_result z) w h k = elim (Bool-cases (is_zero z)) [
  | inl p ↦ (_, refl, rw p k)
  | inr p ↦ (_, refl, rw p k)
]
on_event-total (disconnect_result z) w h k = elim (Bool-cases (is_zero z)) [
  | inl p ↦ (_, refl, rw p k)
  | inr p ↦ (_, refl, rw p k)
]
on_event-total addr_add w h k = (_, refl, k)

pub wifi_connect-ipv4 :
    (scan_ret ret : ℤ) (text : List ℕ) (w : Wifi) (s : Session)
    → wifi_connect scan_ret ret text w ≡ some s
    → s.wifi.sem_ipv4 ≡ w.sem_ipv4
unfolding wifi_connect
wifi_connect-ipv4 scan_ret ret text w s q = elim (Option-cases (copy_text 31 text w.target_ssid)) [
  | inl a ↦ absurd (false≢true (ground (arith, rw a at q)))
  | inr (name, a) ↦
      subst (λ (u : Session). u.wifi.sem_ipv4 ≡ w.sem_ipv4) (some-injective _ _ (rw a at q))
        (proceed-ipv4 ret (record w { target_ssid = name; target_channel = none })
          (started scan_ret) none).0
]
