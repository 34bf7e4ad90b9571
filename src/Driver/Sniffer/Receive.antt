-- ===== src/Driver/Sniffer/Receive.antt =====
-- The reads of a turn, for a whole frame that comes in time and for any line.
use mathlib.Core.Path.{subst}
use mathlib.Core.Option.{some-injective}
use mathlib.Core.Bool.{false≢true}
use haier_controller.Prelude.{
  ℕ, ◌≤◌, ◌<◌, ◌≡◌, sym, ◌∙◌, inl, inr, Bool-cases, Option-cases, Bool, false, not, ◌||◌, ◌!=◌, ltb,
  if◌then◌else◌, List, [], ◌∷◌, ◌++◌, Option, none, some, arith, length, get_or, ==→eq,
}
use haier_controller.Driver.State.{HeatpumpConfig}
use haier_controller.Driver.Uart.{Poll, within, Ticks, Read, start_time, uart_read_bytes}
use haier_controller.Driver.Uart.Laws.{
  Spells, uart_read_bytes-Spells, IsRead, uart_read_bytes-IsRead,
}
use haier_controller.Driver.Sniffer.{
  payload_size, Payload, Received, skip, receive_payload, receive_header, receive,
}

-- A frame on the line: the address, the function code and the size, and as many bytes of payload,
-- each part within the time that the driver gives it.
pub record OnLine (k : Ticks) (addr : ℕ) (raw : List ℕ) (line rest : List Poll) : Type 0 where
  pub addr_polls : List Poll
  pub header_polls : List Poll
  pub payload_polls : List Poll
  pub line_is : line ≡ addr_polls ++ (header_polls ++ (payload_polls ++ rest))
  pub addr_spelled :
      Spells k.forever
        (start_time (addr_polls ++ (header_polls ++ (payload_polls ++ rest))))
        (addr ∷ [])
        addr_polls
  pub header_spelled :
      Spells
        (k.msec 50)
        (start_time (header_polls ++ (payload_polls ++ rest)))
        (0x03 ∷ length raw ∷ [])
        header_polls
  pub payload_spelled : Spells (k.msec 100) (start_time (payload_polls ++ rest)) raw payload_polls

module _ (k : Ticks) (cfg : HeatpumpConfig) (raw : List ℕ) (line rest : List Poll)
    (w : OnLine k cfg.slave_addr raw line rest) where
  payload_read :
      receive_payload k (length raw) (w.payload_polls ++ rest)
      ≡ some (record { payload = some (record { size = length raw; raw = raw }); rest = rest })
  unfolding receive_payload
  payload_read = rw (uart_read_bytes-Spells rest w.payload_spelled)

  header_read :
      length raw ≤ payload_size
      → receive_header k (w.header_polls ++ (w.payload_polls ++ rest))
        ≡ receive_payload k (length raw) (w.payload_polls ++ rest)
  unfolding receive_header
  header_read fits =
      rw (uart_read_bytes-Spells (w.payload_polls ++ rest) w.header_spelled) (ground arith)

  pub receive-OnLine :
      length raw ≤ payload_size
      → receive k cfg line
        ≡ some (record { payload = some (record { size = length raw; raw = raw }); rest = rest })
  unfolding receive
  receive-OnLine fits =
      rw
        (
          w.line_is,
          uart_read_bytes-Spells (w.header_polls ++ (w.payload_polls ++ rest)) w.addr_spelled,
        )
        (ground (arith, header_read fits, payload_read))

-- A payload is as long as its header says, and fits the buffer.
abbrev pub Fits : Option Payload → Type 0
Fits none = Unit
Fits (some p) = (length p.raw ≡ p.size) × (p.size ≤ payload_size)

pub record IsReceived (line : List Poll) (r : Received) : Type 0 where
  pub fits : Fits r.payload
  pub progress : length r.rest < length line

-- The result of the last read, by whether it is complete.
payload_result-Fits :
    (size : ℕ) (polls : List Poll) (a : Read)
    → size ≤ payload_size
    → IsRead size polls a
    → Fits (if a.complete then some (record { size = size; raw = a.buf }) else none)
payload_result-Fits size polls a h read = elim (Bool-cases a.complete) [
  | inl full ↦ rw full (==→eq _ _ (sym read.complete_iff ∙ full), h)
  | inr short ↦ rw short tt
]

receive_payload-Fits :
    (k : Ticks) (size : ℕ) (polls : List Poll) (r : Received)
    → size ≤ payload_size
    → receive_payload k size polls ≡ some r
    → Fits r.payload × (length r.rest ≤ length polls)
unfolding receive_payload
receive_payload-Fits k size polls r h e =
    elim (Option-cases (uart_read_bytes size (within (k.msec 100)) polls)) [
      | inl waits ↦ absurd (false≢true (ground arith))
      | inr (a, q) ↦
          let x = some-injective _ _ (rw q at e) in
          let read = uart_read_bytes-IsRead size (within (k.msec 100)) polls a q in
          subst (λ (y : Received). Fits y.payload × (length y.rest ≤ length polls)) x
            (payload_result-Fits size polls a h read, omega arith)
    ]

-- The tests on the header, and on the address.
abbrev bad : Read → Bool
bad a = not a.complete || get_or a.buf 0 0 != 0x03 || ltb payload_size (get_or a.buf 1 0)

abbrev other : HeatpumpConfig → Read → Bool
other cfg a = not a.complete || get_or a.buf 0 0 != cfg.slave_addr

small : (a : Read) → bad a ≡ false → get_or a.buf 1 0 ≤ payload_size
small a h = ground arith

skipped-Fits :
    (polls rest : List Poll) (r : Received)
    → length rest ≤ length polls
    → skip rest ≡ some r
    → Fits r.payload × (length r.rest ≤ length polls)
skipped-Fits polls rest r h e =
    subst (λ (y : Received). Fits y.payload × (length y.rest ≤ length polls)) (some-injective _ _ e)
      (tt, h)

receive_header-Fits :
    (k : Ticks) (polls : List Poll) (r : Received)
    → receive_header k polls ≡ some r
    → Fits r.payload × (length r.rest ≤ length polls)
unfolding receive_header
receive_header-Fits k polls r e =
    elim (Option-cases (uart_read_bytes 2 (within (k.msec 50)) polls)) [
      | inl waits ↦ absurd (false≢true (ground arith))
      | inr (a, q) ↦
          let read = uart_read_bytes-IsRead 2 (within (k.msec 50)) polls a q in
          elim (Bool-cases (bad a)) [
            | inl b ↦ skipped-Fits polls a.rest r (omega arith) (rw (q, b) at e)
            | inr b ↦
                let got =
                  receive_payload-Fits k (get_or a.buf 1 0) a.rest r (small a b) (rw (q, b) at e) in
                (got.0, omega arith)
          ]
    ]

-- Whatever is on the line, the reads of a turn that came to an end took at least one round from
-- it, and a payload that they hand on is as long as its header says and fits the buffer of 64
-- bytes.
pub receive-IsReceived :
    (k : Ticks) (cfg : HeatpumpConfig) (line : List Poll) (r : Received)
    → receive k cfg line ≡ some r
    → IsReceived line r
unfolding receive
receive-IsReceived k cfg line r e =
    elim (Option-cases (uart_read_bytes 1 (within k.forever) line)) [
      | inl waits ↦ absurd (false≢true (ground arith))
      | inr (a, q) ↦
          let read = uart_read_bytes-IsRead 1 (within k.forever) line a q in
          let shorter : length a.rest < length line = omega (arith, read) in
          elim (Bool-cases (other cfg a)) [
            | inl b ↦
                let got = skipped-Fits a.rest a.rest r (omega arith) (rw (q, b) at e) in
                record { fits = got.0; progress = omega arith }
            | inr b ↦
                let got = receive_header-Fits k a.rest r (rw (q, b) at e) in
                record { fits = got.0; progress = omega arith }
          ]
    ]
