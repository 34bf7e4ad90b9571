-- ===== src/App/Mqtt/Encode.antt =====
-- The CBOR payload of publish_status, of fw/src/mqtt.c. The encoder is zcbor's: a parameter.
pub mod Room
pub mod Status
use haier_controller.Prelude.{ℕ, Bool, true, ◌&&◌, List, Option, none, some, if◌then◌else◌}
use haier_controller.App.Status.{StatusPacket}

-- The calls of zcbor: each says whether it succeeded, and gives the state behind it.
pub record Zcbor (Float : Type 0) : Type 1 where
  pub State : Type 0
  -- zcbor_new_encode_state, for a buffer of so many bytes
  pub new : ℕ → State
  pub list_start : ℕ → State → Bool × State
  pub float32_put : Float → State → Bool × State
  pub uint32_put : ℕ → State → Bool × State
  pub list_end : ℕ → State → Bool × State
  -- the bytes between the start of the buffer and `state->payload`
  pub written : State → List ℕ

-- `ok &= f(state)`, which makes the call whether or not `ok` is still true.
abbrev pub also : {State : Type 0} → (State → Bool × State) → Bool × State → Bool × State
also f s = (s.0 && (f s.1).0, (f s.1).1)

-- The payload that publish_status hands to publish_msg; `none` if a call failed.
module _ {Float : Type 0} (z : Zcbor Float) where
  open z use {State, new, list_start, float32_put, uint32_put, list_end, written}

  abbrev pub put_floats : StatusPacket Float → Bool × State → Bool × State
  put_floats p s = also (float32_put p.dhw_target_temp) (
      also (float32_put p.ch_target_temp) (
        also (float32_put p.dhw_temp)
          (also (float32_put p.ch_temp) (also (float32_put p.ambient_temp) s))))

  abbrev pub put_numbers : StatusPacket Float → Bool × State → Bool × State
  put_numbers p s = also (uint32_put p.driver_state) (
      also (uint32_put p.heater_state) (
        also (uint32_put p.tank_state)
          (also (uint32_put p.valve_state) (also (uint32_put p.opr_mode) s))))

  pub encode : StatusPacket Float → Option (List ℕ)
  encode p =
      let last = also (list_end 10) (put_numbers p (put_floats p (list_start 10 (new 64)))) in
      if last.0 then some (written last.1) else none
