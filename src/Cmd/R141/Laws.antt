-- ===== src/Cmd/R141/Laws.antt =====
-- The getters over the block from 141 on, over the words of a frame.
use haier_controller.Prelude.{
  ℕ, ℤ, pos, negsuc, ◌+◌, ◌*◌, ◌/◌, ◌%◌, ◌<◌, ◌≡◌, refl, ap, Bool, true, false, some, arith, i16,
  if◌then◌else◌,
}
use haier_controller.Prelude.Bits.{digit, has_bit, has_bit-digit}
use haier_controller.Floats.{Floats}
use haier_controller.Cmd.Types.{HeatpumpThreeway, HeatpumpState}
use haier_controller.Cmd.Bytes.{low_byte, low12, high12, low_byte_lem, low12_lem, high12_lem}
use haier_controller.Cmd.Fields.{
  word, nib, low, high_byte-word, low_byte-word, high_byte_below, high_byte_above, low-lt,
}
use haier_controller.Cmd.R141.{
  get_3way_state, get_dhw_temp, get_error, get_heater_state, get_pump_state, get_thi_tho_info,
  get_twi_two_info,
}
use haier_controller.Cmd.R141.Frame.{
  Frame, IsFrame, IsSent, IsSigned16, sixteen, valve_bits, flag, on_off, words, Reports,
}

i16-sixteen : (z : ℤ) → IsSigned16 z → i16 (sixteen z) ≡ z
i16-sixteen (pos n) h = ground arith
i16-sixteen (negsuc n) h = ground arith

-- The tests of get_3way_state, in order.
abbrev tested : ℕ → HeatpumpThreeway
tested r =
    if has_bit r 9
    then HeatpumpThreeway.dhw
    else (if has_bit r 10
        then HeatpumpThreeway.ch
        else (if has_bit r 11
            then HeatpumpThreeway.antifreeze
            else (if has_bit r 13 then HeatpumpThreeway.defrost else HeatpumpThreeway.off)))

-- The digits of a register, at once.
bits :
    (r : ℕ)
    → (digit 9 r ≡ r / 512 % 2)
      × (digit 10 r ≡ r / 1024 % 2)
      × (digit 11 r ≡ r / 2048 % 2)
      × (digit 13 r ≡ r / 8192 % 2)
bits r = omega arith

tested-valve :
    (a b c e : ℕ) (v : HeatpumpThreeway)
    → IsSent v
    → b < 2
    → c < 2
    → e < 256
    → let r = a * 16384 + b * 4096 + c * 256 + valve_bits v + e in tested r ≡ v
tested-valve a b c e HeatpumpThreeway.invalid h p q k = absurd h
tested-valve a b c e v h p q k =
    let r = a * 16384 + b * 4096 + c * 256 + valve_bits v + e in
    let d = bits r in
    ground (arith, has_bit-digit 9 r, has_bit-digit 10 r, has_bit-digit 11 r, has_bit-digit 13 r)

state_bits :
    (a e : ℕ) (p h : Bool)
    → e < 256
    → let r = a * 1024 + flag p * 512 + flag h * 256 + e in (has_bit r 8 ≡ h) × (has_bit r 9 ≡ p)
state_bits a e p h k =
    let r = a * 1024 + flag p * 512 + flag h * 256 + e in
    (ground (arith, has_bit-digit 8 r), ground (arith, has_bit-digit 9 r))

error_low :
    (a b c e : ℕ) (v : HeatpumpThreeway)
    → e < 256
    → low_byte (a * 16384 + b * 4096 + c * 256 + valve_bits v + e) ≡ e
error_low a b c e HeatpumpThreeway.off h = omega (arith, low_byte_lem _)
error_low a b c e v h =
    omega (arith, low_byte_lem (a * 16384 + b * 4096 + c * 256 + valve_bits v + e))

-- The unsigned 12-bit quantities share a low byte as the signed ones do.
twi_field :
    (s x y : ℕ)
    → x < 4096
    → y < 4096
    → low12 (low_byte (word s (y / 256 * 16 + x / 256))) (x % 256) ≡ x
twi_field s x y p q = omega (
  arith,
  low_byte_lem (word s (y / 256 * 16 + x / 256)),
  low12_lem (low_byte (word s (y / 256 * 16 + x / 256))) (x % 256),
)

two_field :
    (s x y : ℕ)
    → x < 4096
    → y < 4096
    → high12 (low_byte (word s (y / 256 * 16 + x / 256))) (y % 256) ≡ y
two_field s x y p q = omega (
  arith,
  low_byte_lem (word s (y / 256 * 16 + x / 256)),
  high12_lem (low_byte (word s (y / 256 * 16 + x / 256))) (y % 256),
)

on_off_lem : (b : Bool) → some (if b then HeatpumpState.on else HeatpumpState.off) ≡ some (on_off b)
on_off_lem true = refl
on_off_lem false = refl

module _ (F : Floats) (f : Frame) (ok : IsFrame f) where
  -- For a frame whose quantities fit their bits, each of the seven getters over the block from
  -- register 141 on, called with the 16 words of the frame, reports the quantity of the frame:
  -- the position of the valve, the heater and the pump by value, the others with success through
  -- a pointer that is not NULL.
  pub r141-Reports : Reports F f (words f)
  unfolding get_3way_state get_dhw_temp get_error get_heater_state get_pump_state get_thi_tho_info
      get_twi_two_info
  r141-Reports = record {
    threeway = ap some (
        tested-valve (f.spare 2) (f.spare 1) (f.spare 0) f.error f.valve ok.valve ok.spare_bit.1
          ok.spare_bit.0 ok.error);
    error = λ old. rw (error_low (f.spare 2) (f.spare 1) (f.spare 0) f.error f.valve ok.error);
    heater_state =
        rw ((state_bits (f.spare 4) (f.spare 3) f.pump f.heater ok.spare_byte.0).0)
          (on_off_lem f.heater);
    pump_state =
        rw ((state_bits (f.spare 4) (f.spare 3) f.pump f.heater ok.spare_byte.0).1)
          (on_off_lem f.pump);
    dhw_temp = λ old. rw (i16-sixteen f.dhw_temp ok.dhw_temp);
    thi_tho_info = λ old. rw (
      low_byte-word (nib f.tho * 16 + nib f.thi) (low f.thi) (low-lt f.thi),
      high_byte-word (low f.tho) (f.spare 5) (low-lt f.tho) ok.spare_byte.1,
      high_byte_below f.tho f.thi (low f.thi) ok.tho ok.thi (low-lt f.thi),
      high_byte_above f.tho f.thi (low f.thi) ok.tho ok.thi (low-lt f.thi),
    );
    twi_two_info = λ old. rw (
      high_byte-word (f.twi % 256) (f.two % 256) (omega arith) (omega arith),
      low_byte-word (f.twi % 256) (f.two % 256) (omega arith),
      twi_field (f.spare 6) f.twi f.two ok.twi ok.two,
      two_field (f.spare 6) f.twi f.two ok.twi ok.two,
    );
  }
