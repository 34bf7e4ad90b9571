-- ===== src/App/Mqtt/Encode/Room.antt =====
-- The room that the status takes in the buffer of publish_status.
use haier_controller.Prelude.{
  ℕ, ◌+◌, ◌≤◌, ◌<◌, ◌≡◌, refl, Bool, true, false, if◌then◌else◌, List, none, some, arith,
}
use mathlib.Core.Bool.{false≢true}
use haier_controller.App.Status.{StatusPacket}
use haier_controller.App.Mqtt.Encode.{Zcbor, also, put_floats, put_numbers, encode}

-- A call succeeds, and takes at most `n` bytes.
abbrev pub Takes : {State : Type 0} → (State → ℕ) → ℕ → State → Bool × State → Type 0
Takes room n s r = (r.0 ≡ true) × (room s ≤ room r.1 + n)

-- What CBOR takes, where there is room: one byte for the head and for the end of a short list, one
-- for a number below 24, and five for a float.
pub record Sizes {Float : Type 0} (z : Zcbor Float) : Type 0 where
  pub room : z.State → ℕ
  pub new_room : (n : ℕ) → room (z.new n) ≡ n
  pub start_room : (n : ℕ) (s : z.State) → n < 24 → 1 ≤ room s → Takes room 1 s (z.list_start n s)
  pub float_room : (x : Float) (s : z.State) → 5 ≤ room s → Takes room 5 s (z.float32_put x s)
  pub number_room : (n : ℕ) (s : z.State) → n < 24 → 1 ≤ room s → Takes room 1 s (z.uint32_put n s)
  pub end_room : (n : ℕ) (s : z.State) → n < 24 → 1 ≤ room s → Takes room 1 s (z.list_end n s)

-- Every number of the packet fits one byte of CBOR.
pub record IsSmall {Float : Type 0} (p : StatusPacket Float) : Type 0 where
  pub opr_mode : p.opr_mode < 24
  pub valve_state : p.valve_state < 24
  pub tank_state : p.tank_state < 24
  pub heater_state : p.heater_state < 24
  pub driver_state : p.driver_state < 24

chosen : (b : Bool) (w : List ℕ) → b ≡ true → (v : List ℕ) × ((if b then some w else none) ≡ some v)
chosen true w e = (w, refl)
chosen false w e = absurd (false≢true e)

module _ {Float : Type 0} (z : Zcbor Float) (L : Sizes z) where
  open z use {State, float32_put, uint32_put, list_start, list_end}
  open L use {room}

  -- Success so far, with so much room left.
  record Left (n : ℕ) (r : Bool × State) : Type 0 where
    ok : r.0 ≡ true
    left : n ≤ room r.1

  also-float :
      (n : ℕ) (x : Float) (r : Bool × State) → Left (5 + n) r → Left n (also (float32_put x) r)
  also-float n x r l = ground (arith, l, L.float_room x r.1)

  also-number :
      (n v : ℕ) (r : Bool × State) → v < 24 → Left (1 + n) r → Left n (also (uint32_put v) r)
  also-number n v r h l = ground (arith, l, L.number_room v r.1)

  also-end : (n : ℕ) (r : Bool × State) → Left (1 + n) r → Left n (also (list_end 10) r)
  also-end n r l = ground (arith, l, L.end_room 10 r.1)

  started : Left 63 (list_start 10 (z.new 64))
  started = ground (arith, L.new_room 64, L.start_room 10 (z.new 64))

  floats-Left : (p : StatusPacket Float) → Left 38 (put_floats z p (list_start 10 (z.new 64)))
  floats-Left p =
      also-float 38 _ _
        (also-float 43 _ _ (also-float 48 _ _ (also-float 53 _ _ (also-float 58 _ _ started))))

  numbers-Left :
      (p : StatusPacket Float) (r : Bool × State)
      → IsSmall p
      → Left 38 r
      → Left 33 (put_numbers z p r)
  numbers-Left p r s l = also-number 33 _ _ s.driver_state (
      also-number 34 _ _ s.heater_state (
        also-number 35 _ _ s.tank_state
          (also-number 36 _ _ s.valve_state (also-number 37 _ _ s.opr_mode l))))

  pub encode-IsSmall :
      (p : StatusPacket Float) → IsSmall p → (payload : List ℕ) × (encode z p ≡ some payload)
  unfolding encode
  encode-IsSmall p s = chosen _ _ (also-end 32 _ (numbers-Left p _ s (floats-Left p))).ok
