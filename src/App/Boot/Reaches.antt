-- ===== src/App/Boot/Reaches.antt =====
-- Where main comes to: the network's events in any order.
use mathlib.Core.Path.{subst}
use mathlib.Core.Bool.{false≢true}
use mathlib.Core.Option.{some-injective}
use haier_controller.Prelude.{
  ℕ, length, ℤ, ◌≡◌, refl, ap, sym, ◌∙◌, Bool, true, false, ◌&&◌, ◌||◌, List, [], ◌∷◌, Option, some,
  arith, Option-cases, inl, inr, Bool-cases,
}
use haier_controller.App.Relay.{Gpio, Pin, relay_init}
use haier_controller.App.Wifi.{
  ssid_size, Wifi, Event, Phase, scanning, joining, returned, Session, proceed, hear,
  wifi_wait_for_ip_addr,
}
use haier_controller.App.Mqtt.Laws.{Free}
use haier_controller.App.Wifi.Scan.{IsBuffer}
use haier_controller.App.Wifi.Join.{proceed-target_ssid, wifi_connect-Holds}
use haier_controller.App.Wifi.Address.{
  is_returned, is_address, InArrays, hear-ipv4, on_event-total, wifi_connect-ipv4,
}
use haier_controller.App.Boot.{Start, go_on, main_start, main_hears, main_hears_all}

abbrev pub has_address : List Event → Bool
has_address [] = false
has_address (e ∷ es) = is_address e || has_address es

-- The semaphore holds an address that came, until main takes it.
pub record IsStart (m : Start) (seen : Bool) : Type 0 where
  pub reached : m.at_mqtt ≡ (is_returned m.session.phase && seen)
  pub kept : (m.at_mqtt || m.session.wifi.sem_ipv4) ≡ seen

go_on-IsStart :
    (pins : List Pin) (w : Wifi) (p : Phase) (ch : Option (Option ℕ)) (at_mqtt seen : Bool)
    → (at_mqtt || w.sem_ipv4) ≡ seen
    → (at_mqtt ≡ true → is_returned p ≡ true)
    → IsStart
        (go_on
          (record {
            pins = pins;
            session = record { wifi = w; phase = p; channel = ch };
            at_mqtt = at_mqtt;
          })
          p)
        seen
unfolding wifi_wait_for_ip_addr
go_on-IsStart pins w scanning ch at_mqtt seen h k = record { reached = ground (arith, k); kept = h }
go_on-IsStart pins w joining ch at_mqtt seen h k = record { reached = ground (arith, k); kept = h }
go_on-IsStart pins w (returned z) ch true seen h k = record { reached = h; kept = h }
go_on-IsStart pins w (returned z) ch false seen h k = elim (Bool-cases w.sem_ipv4) [
  | inl e ↦ rw e (record { reached = rw (← h, e) refl; kept = rw (← h, e) refl })
  | inr e ↦ rw e (record { reached = sym (rw (← h, e) refl); kept = sym e ∙ h })
]

main_hears-IsStart :
    (ret : ℤ) (e : Event) (m n : Start) (seen : Bool)
    → IsStart m seen
    → main_hears ret e m ≡ some n
    → IsStart n (is_address e || seen)
unfolding main_hears
main_hears-IsStart ret e m n seen i q = elim (Option-cases (hear ret e m.session)) [
  | inl a ↦ absurd (false≢true (ground (arith, rw a at q)))
  | inr (s, a) ↦
      let (same, still) = hear-ipv4 ret e m.session s a in
      let start =
        go_on-IsStart m.pins s.wifi s.phase s.channel m.at_mqtt (is_address e || seen)
          (ground (arith, same, i.kept)) (λ at. still (ground (arith, at, i.reached))) in
      subst (λ (u : Start). IsStart u (is_address e || seen)) (some-injective _ _ (rw a at q)) start
]

main_hears_all-IsStart :
    (ret : ℤ) (es : List Event) (m n : Start) (seen : Bool)
    → IsStart m seen
    → main_hears_all ret es m ≡ some n
    → IsStart n (has_address es || seen)
unfolding main_hears_all
main_hears_all-IsStart ret [] m n seen i q =
    subst (λ (u : Start). IsStart u seen) (some-injective _ _ q) i
main_hears_all-IsStart ret (e ∷ es) m n seen i q = elim (Option-cases (main_hears ret e m)) [
  | inl a ↦ absurd (false≢true (ground (arith, rw a at q)))
  | inr (u, a) ↦
      let rest =
        main_hears_all-IsStart ret es u n (is_address e || seen)
          (main_hears-IsStart ret e m u seen i a) (rw a at q) in
      subst (IsStart n) (any_order (is_address e) (has_address es) seen) rest
]
  where
    any_order : (a b c : Bool) → (b || (a || c)) ≡ ((a || b) || c)
    any_order a b c = ground arith

abbrev pub AllInArrays : List Event → Type 0
AllInArrays [] = Unit
AllInArrays (e ∷ es) = InArrays e × AllInArrays es

-- The array of the name keeps its size.
abbrev Sized : Session → Type 0
Sized s = length s.wifi.target_ssid ≡ ssid_size

go_on-Sized : (m : Start) (p : Phase) → Sized m.session → Sized (go_on m p).session
unfolding wifi_wait_for_ip_addr
go_on-Sized m scanning k = k
go_on-Sized m joining k = k
go_on-Sized m (returned z) k = ground (arith, k)

main_hears-total :
    (ret : ℤ) (e : Event) (m : Start)
    → InArrays e
    → Sized m.session
    → (n : Start) × (main_hears ret e m ≡ some n) × Sized n.session
unfolding main_hears hear
main_hears-total ret e m h k =
    let (v, q, same) = on_event-total e m.session.wifi h k in
    let s : Session = proceed ret (record m.session { wifi = v }) in
    (
      go_on (record m { session = s }) s.phase,
      rw q refl,
      go_on-Sized (record m { session = s }) s.phase
          (ap {B = ℕ} (λ (t : List ℕ). length t)
              (proceed-target_ssid ret v m.session.phase m.session.channel)
            ∙ same),
    )

main_hears_all-total :
    (ret : ℤ) (es : List Event) (m : Start)
    → AllInArrays es
    → Sized m.session
    → (n : Start) × (main_hears_all ret es m ≡ some n)
unfolding main_hears_all
main_hears_all-total ret [] m h k = (m, refl)
main_hears_all-total ret (e ∷ es) m h k =
    let (u, q, still) = main_hears-total ret e m h.0 k in
    let (n, r) = main_hears_all-total ret es u h.1 still in (n, rw q r)

-- For a name of a network without a NUL, the array of 32 bytes that ends in a NUL, no address so
-- far, and any events of the network whose scan results are inside their arrays, whatever Zephyr
-- answers to the requests and of the relays: main runs without an access outside an array, and
-- after the events it is behind wifi_wait_for_ip_addr, at mqtt_init, exactly if the call of
-- wifi_connect has returned and an address came, in any order.
pub main_start-reaches :
    (gpios : List Gpio) (pins : List Pin) (scan_ret ret : ℤ) (ssid : List ℕ) (w : Wifi)
    (es : List Event)
    → Free 0 ssid
    → IsBuffer w.target_ssid
    → w.sem_ipv4 ≡ false
    → AllInArrays es
    → (m : Start) × (n : Start) × (main_start gpios pins scan_ret ret ssid w ≡ some m)
      × (main_hears_all ret es m ≡ some n)
      × (n.at_mqtt ≡ (is_returned n.session.phase && has_address es))
unfolding main_start
main_start-reaches gpios pins scan_ret ret ssid w es text buffer empty inside =
    let (s, q, holds) = wifi_connect-Holds scan_ret ret ssid w text buffer in
    let m : Start =
      go_on (record { pins = relay_init gpios pins; session = s; at_mqtt = false }) s.phase in
    let (n, r) = main_hears_all-total ret es m inside (go_on-Sized _ s.phase holds.size) in
    let start : IsStart m false =
      go_on-IsStart (relay_init gpios pins) s.wifi s.phase s.channel false false
        (wifi_connect-ipv4 scan_ret ret ssid w s q ∙ empty) (λ e. absurd (false≢true e)) in
    let end = main_hears_all-IsStart ret es m n false start r in
    (m, n, rw q refl, r, ground (arith, end.reached))
