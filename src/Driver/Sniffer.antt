-- ===== src/Driver/Sniffer.antt =====
-- The sniffer thread of heatpump.c: one turn of its loop, in two parts. `receive` is what it does
-- with the line alone; `deliver` is the section under `data_mutex`.
pub mod Receive
pub mod Deliver
pub mod Turns
pub mod Strays
pub mod Rounds
pub mod Held
use haier_controller.Prelude.{
  ℕ, Bool, true, false, not, ◌||◌, ◌==◌, ◌!=◌, ltb, if◌then◌else◌, List, Option, none, some, get_or,
}
use haier_controller.Cmd.Types.{◌>>=◌}
use haier_controller.Driver.State.{HeatpumpConfig, Regs}
use haier_controller.Driver.Registers.{parse_registers}
use haier_controller.Driver.Uart.{Poll, within, Ticks, uart_read_bytes}

-- `sizeof(payload)`
abbrev pub payload_size : ℕ
payload_size = 64

-- A frame that passed the tests: `header[1]`, and the bytes that it announced.
pub record Payload : Type 0 where
  pub size : ℕ
  pub raw : List ℕ

-- What a turn takes from the line; no payload means that it ended in `continue`.
pub record Received : Type 0 where
  pub payload : Option Payload
  pub rest : List Poll

abbrev pub skip : List Poll → Option Received
skip rest = some (record { payload = none; rest = rest })

-- The three reads of a turn. `none` is a read that still waits.
pub receive_payload : Ticks → ℕ → List Poll → Option Received
receive_payload k size polls = do
  payload ← uart_read_bytes size (within (k.msec 100)) polls
  let got = some (record { size = size; raw = payload.buf })
  some (record { payload = if payload.complete then got else none; rest = payload.rest })

pub receive_header : Ticks → List Poll → Option Received
receive_header k polls = do
  header ← uart_read_bytes 2 (within (k.msec 50)) polls
  let size = get_or header.buf 1 0
  let bad = not header.complete || get_or header.buf 0 0 != 0x03 || ltb payload_size size
  if bad then skip header.rest else receive_payload k size header.rest

pub receive : Ticks → HeatpumpConfig → List Poll → Option Received
receive k cfg polls = do
  addr ← uart_read_bytes 1 (within k.forever) polls
  let other = not addr.complete || get_or addr.buf 0 0 != cfg.slave_addr
  if other then skip addr.rest else receive_header k addr.rest

-- The registers after the section, and whether it called `k_sem_give(&write_sem)`.
pub record Delivered : Type 0 where
  pub registers : Regs
  pub gave : Bool

-- The `switch` on the size. `none` is an access outside an array.
pub deliver : Payload → Bool → Regs → Option Delivered
deliver p pending r =
    if p.size == 0x0c
    then update101 (parse_registers p.raw r.r101 6)
    else (if p.size == 0x20
        then update141 (parse_registers p.raw r.r141 16)
        else (if p.size == 0x02
            then update201 (parse_registers p.raw r.r201 1)
            else (if p.size == 0x2c
                then update241 (parse_registers p.raw r.r241 22)
                else some (record { registers = r; gave = false }))))
  where
    update101 : Option (List ℕ) → Option Delivered
    update101 parsed = do
      words ← parsed
      some (record { registers = record r { r101 = words }; gave = false })

    update141 : Option (List ℕ) → Option Delivered
    update141 parsed = do
      words ← parsed
      some (record { registers = record r { r141 = words }; gave = false })

    update201 : Option (List ℕ) → Option Delivered
    update201 parsed = do
      words ← parsed
      some (record { registers = record r { r201 = words }; gave = false })

    update241 : Option (List ℕ) → Option Delivered
    update241 parsed = do
      words ← parsed
      some (record { registers = record r { r241 = words }; gave = pending })

pub record Turn : Type 0 where
  pub registers : Regs
  pub gave : Bool
  pub slept : Bool
  pub rest : List Poll

pub data Turned : Type 0 where
  waiting fault : Turned
  ended : Turn → Turned

abbrev pub of_delivered : List Poll → Option Delivered → Turned
of_delivered rest none = fault
of_delivered rest (some d) =
    ended (record { registers = d.registers; gave = d.gave; slept = false; rest = rest })

pub of_payload : Bool → Regs → List Poll → Option Payload → Turned
of_payload pending r rest none =
    ended (record { registers = r; gave = false; slept = false; rest = rest })
of_payload pending r rest (some p) = of_delivered rest (deliver p pending r)

pub of_received : Bool → Regs → Option Received → Turned
of_received pending r none = waiting
of_received pending r (some got) = of_payload pending r got.rest got.payload

-- One turn of `while(1)`. `transmitting` is read at its start and `pending` at its end; in between
-- the other threads may have changed them.
pub sniff : Ticks → HeatpumpConfig → Bool → Bool → Regs → List Poll → Turned
sniff k cfg transmitting pending r polls =
    if transmitting
    then ended (record { registers = r; gave = false; slept = true; rest = polls })
    else of_received pending r (receive k cfg polls)
