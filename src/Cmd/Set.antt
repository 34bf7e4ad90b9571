-- ===== src/Cmd/Set.antt =====
-- The functions of haier_cmd.c that put together the registers of a write command. The arrays
-- `current_regs` and `out_regs` do not overlap, as at every call in the driver.
pub mod Words
pub mod Temperatures
pub mod States
pub mod Switches
pub mod Total
use haier_controller.Prelude.{
  ℕ, ◌+◌, ◌-◌, List, Option, none, some, Bool, true, ◌||◌, if◌then◌else◌, ◌!=◌, ltb, is_none,
  get_elem?, set, length, bit_and, bit_or, u8, u16, ◌<<◌,
}
use haier_controller.Floats.{Floats, to_u8, to_u16}
use haier_controller.Cmd.Types.{Reply, reply, refused, ◌>>=◌, HeatpumpState, HeatpumpMode}

-- `out_regs[i] = v`, undefined outside the array.
unfoldable pub store : List ℕ → ℕ → ℕ → Option (List ℕ)
store out i v = if ltb i (length out) then some (set out i v) else none

-- The six assignments with which every command over the block from 101 on ends.
unfoldable pub store6 : List ℕ → ℕ → ℕ → ℕ → ℕ → ℕ → ℕ → Reply (List ℕ)
store6 out v0 v1 v2 v3 v4 v5 = do
  o0 ← store out 0 v0
  o1 ← store o0 1 v1
  o2 ← store o1 2 v2
  o3 ← store o2 3 v3
  o4 ← store o3 4 v4
  o5 ← store o4 5 v5
  reply o5

abbrev lacking : Option (List ℕ) → ℕ → Option (List ℕ) → Bool
lacking current count out_regs = count != 6 || is_none current || is_none out_regs

pub set_heater : Option (List ℕ) → ℕ → Bool → Option (List ℕ) → Reply (List ℕ)
set_heater current count enable out_regs =
    if lacking current count out_regs then refused out_regs else do
      cur ← current
      out ← out_regs
      r0 ← get_elem? cur 0
      r1 ← get_elem? cur 1
      r2 ← get_elem? cur 2
      r3 ← get_elem? cur 3
      r4 ← get_elem? cur 4
      r5 ← get_elem? cur 5
      let heater_bit : ℕ = if enable then 8 else 0
      let pump_state = u8 (bit_and r0 0xff)
      store6 out (bit_or (bit_or 0x1000 heater_bit) pump_state) r1 r2 (bit_and r3 0x0f)
          (bit_and r4 0xff) r5

pub set_pump : Option (List ℕ) → ℕ → Bool → Option (List ℕ) → Reply (List ℕ)
set_pump current count enable out_regs =
    if lacking current count out_regs then refused out_regs else do
      cur ← current
      out ← out_regs
      r0 ← get_elem? cur 0
      r1 ← get_elem? cur 1
      r2 ← get_elem? cur 2
      r3 ← get_elem? cur 3
      r4 ← get_elem? cur 4
      r5 ← get_elem? cur 5
      let cpump_bit : ℕ = if enable then 32 else 0
      let pump_state = u8 (bit_and r0 0xff)
      store6 out (bit_or (bit_or 0x2000 cpump_bit) pump_state) r1 r2 (bit_and r3 0x0f)
          (bit_and r4 0xff) r5

-- The value of an enumerator, and the `switch` of set_mode; the last clause is `default`.
unfoldable pub mode_command : HeatpumpMode → Option ℕ
mode_command HeatpumpMode.eco = some 0
mode_command HeatpumpMode.quiet = some 1
mode_command HeatpumpMode.turbo = some 2
mode_command _ = none

unfoldable pub set_mode : HeatpumpMode → Option (List ℕ) → Reply (List ℕ)
set_mode mode reg_out =
    if is_none reg_out || is_none (mode_command mode)
    then refused reg_out
    else do out ← reg_out; m ← mode_command mode; o0 ← store out 0 (bit_or 0x0100 (u16 m)); reply o0

-- The `switch` of set_state: the command flag and the state byte, from the first register; the
-- last clause is `default`.
pub state_command : HeatpumpState → ℕ → Option (ℕ × ℕ)
state_command HeatpumpState.off r0 = some (0x0100, u8 (bit_and r0 0xff + 256 - 1))
state_command HeatpumpState.on r0 = some (0x0100, u8 (bit_and r0 0xff + 1))
state_command HeatpumpState.cooling r0 = some (0x8600, 3)
state_command HeatpumpState.heating r0 = some (0x8600, 5)
state_command HeatpumpState.dhw r0 = some (0x8600, 135)
state_command HeatpumpState.cool_dhw r0 = some (0x8600, 131)
state_command HeatpumpState.heat_dhw r0 = some (0x8600, 133)
state_command _ r0 = none

-- Whether the `switch` ends in its `default` does not depend on the register.
pub set_state : Option (List ℕ) → ℕ → HeatpumpState → Option (List ℕ) → Reply (List ℕ)
set_state current count target_state out_regs =
    if lacking current count out_regs || is_none (state_command target_state 0)
    then refused out_regs
    else do
      cur ← current
      out ← out_regs
      r0 ← get_elem? cur 0
      command ← state_command target_state r0
      r1 ← get_elem? cur 1
      r2 ← get_elem? cur 2
      r3 ← get_elem? cur 3
      r4 ← get_elem? cur 4
      r5 ← get_elem? cur 5
      store6 out (bit_or command.0 command.1) r1 r2 (bit_and r3 0x0f) (bit_and r4 0xff) r5

module _ (F : Floats) where
  open F use {Float, literal, add, mul}

  unfoldable pub set_ch_temp : Option (List ℕ) → ℕ → Float → Option (List ℕ) → Reply (List ℕ)
  set_ch_temp current count new_temp out_regs =
      if lacking current count out_regs then refused out_regs else do
        cur ← current
        out ← out_regs
        r0 ← get_elem? cur 0
        scaled_temp ← to_u16 F (mul new_temp (literal 2 0))
        r1 ← get_elem? cur 1
        r2 ← get_elem? cur 2
        r3 ← get_elem? cur 3
        r4 ← get_elem? cur 4
        r5 ← get_elem? cur 5
        store6 out (bit_or 0x0400 (bit_and r0 0xff))
            (u16 (bit_or (scaled_temp << 8) (bit_and r1 0xff))) r2 (bit_and r3 0x0f)
            (bit_and r4 0xff) r5

  pub set_dhw_compensation : Option (List ℕ) → ℕ → Float → Option (List ℕ) → Reply (List ℕ)
  set_dhw_compensation current count new_comp out_regs =
      if lacking current count out_regs then refused out_regs else do
        cur ← current
        out ← out_regs
        r0 ← get_elem? cur 0
        r1 ← get_elem? cur 1
        r2 ← get_elem? cur 2
        r3 ← get_elem? cur 3
        r4 ← get_elem? cur 4
        r5 ← get_elem? cur 5
        compensation ← to_u8 F (add (literal 30 0) (mul new_comp (literal 2 0)))
        store6 out (bit_or 0x0800 (bit_and r0 0xff)) r1 r2 (bit_and r3 0x0f) (bit_and r4 0xff)
            (bit_or (bit_and r5 0xff00) compensation)

  pub set_dhw_temp : Option (List ℕ) → ℕ → Float → Option (List ℕ) → Reply (List ℕ)
  set_dhw_temp current count new_temp out_regs =
      if lacking current count out_regs then refused out_regs else do
        cur ← current
        out ← out_regs
        r0 ← get_elem? cur 0
        r1 ← get_elem? cur 1
        r2 ← get_elem? cur 2
        r3 ← get_elem? cur 3
        r4 ← get_elem? cur 4
        scaled_temp ← to_u16 F (mul new_temp (literal 2 0))
        r5 ← get_elem? cur 5
        store6 out (bit_and r0 0xff) r1 r2 (bit_and r3 0x0f) (bit_or 0x0200 (bit_and r4 0xff))
            (u16 (bit_or (scaled_temp << 8) (bit_and r5 0xff)))

  pub set_temp_compensation : Option (List ℕ) → ℕ → Float → Option (List ℕ) → Reply (List ℕ)
  set_temp_compensation current count new_comp out_regs =
      if lacking current count out_regs then refused out_regs else do
        cur ← current
        out ← out_regs
        r0 ← get_elem? cur 0
        r1 ← get_elem? cur 1
        compensation ← to_u8 F (add (literal 30 0) (mul new_comp (literal 2 0)))
        r2 ← get_elem? cur 2
        r3 ← get_elem? cur 3
        r4 ← get_elem? cur 4
        r5 ← get_elem? cur 5
        store6 out (bit_or 0x0800 (bit_and r0 0xff)) (bit_or (bit_and r1 0xff00) compensation) r2
            (bit_and r3 0x0f) (bit_and r4 0xff) r5
