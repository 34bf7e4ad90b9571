-- ===== src/Driver/Sniffer/Strays.antt =====
-- What else comes on the line between the reports: bytes that are no address, other frames, and
-- frames that are cut off.
use haier_controller.Prelude.{
  ℕ, suc, ◌≤◌, ◌<◌, ◌≡◌, ◌≢◌, ◌⊎◌, refl, ◌∙◌, Bool, false, ◌||◌, ◌==◌, List, [], ◌∷◌, ◌++◌, arith,
  length, some,
}
use haier_controller.Driver.State.{HeatpumpConfig, Regs}
use haier_controller.Driver.Uart.{Poll, Ticks, start_time}
use haier_controller.Driver.Uart.Laws.{Spells, uart_read_bytes-Spells}
use haier_controller.Driver.Uart.Cut.{Cuts, beyond, uart_read_bytes-Cuts}
use haier_controller.Driver.Sniffer.{
  payload_size, Payload, ended, receive_payload, receive_header, receive, deliver, of_received,
  of_payload, sniff, skip,
}
use haier_controller.Driver.Sniffer.Receive.{OnLine, receive-OnLine}

-- The sizes of the four blocks.
abbrev pub is_block : ℕ → Bool
is_block size = size == 0x0c || size == 0x20 || size == 0x02 || size == 0x2c

-- Bytes, each in time, and the line behind them.
pub record Sent (limit : ℕ) (bytes : List ℕ) (line rest : List Poll) : Type 0 where
  pub polls : List Poll
  pub line_is : line ≡ polls ++ rest
  pub spelled : Spells limit (start_time (polls ++ rest)) bytes polls

-- Fewer bytes than `size`, and then silence until the limit has passed.
pub record Broken (limit size : ℕ) (line rest : List Poll) : Type 0 where
  pub came : List ℕ
  pub missing : ℕ
  pub size_is : size ≡ beyond came missing
  pub polls : List Poll
  pub line_is : line ≡ polls ++ rest
  pub cut : Cuts limit (start_time (polls ++ rest)) came polls

-- What takes up one turn of the sniffer, and leaves the registers alone: a byte that is no address;
-- a frame of another function, or of a size over 64, of which the payload is still to come; a report
-- of a size that is no block's, such as the request of a register below 256, which has the high byte
-- of the number, 0, where a report has its size; and frames whose header or payload breaks off.
pub data Stray (k : Ticks) (addr : ℕ) (line rest : List Poll) : Type 0 where
  byte : (b : ℕ) → b ≢ addr → Sent k.forever (b ∷ []) line rest → Stray k addr line rest
  other_frame :
      (code size : ℕ) (behind : List Poll)
      → (code ≢ 0x03) ⊎ (payload_size < size)
      → Sent k.forever (addr ∷ []) line behind
      → Sent (k.msec 50) (code ∷ size ∷ []) behind rest
      → Stray k addr line rest
  other_report :
      (raw : List ℕ)
      → length raw ≤ payload_size
      → is_block (length raw) ≡ false
      → OnLine k addr raw line rest
      → Stray k addr line rest
  broken_header :
      (behind : List Poll)
      → Sent k.forever (addr ∷ []) line behind
      → Broken (k.msec 50) 2 behind rest
      → Stray k addr line rest
  broken_payload :
      (size : ℕ) (behind payload : List Poll)
      → size ≤ payload_size
      → Sent k.forever (addr ∷ []) line behind
      → Sent (k.msec 50) (0x03 ∷ size ∷ []) behind payload
      → Broken (k.msec 100) size payload rest
      → Stray k addr line rest

-- `n` of them, before the line `rest`.
pub data Strays (k : Ticks) (addr : ℕ) (rest : List Poll) : ℕ → List Poll → Type 0 where
  done : Strays k addr rest 0 rest
  stray :
      {n : ℕ} {line : List Poll} (more : List Poll)
      → Stray k addr line more
      → Strays k addr rest n more
      → Strays k addr rest (suc n) line

module _ (k : Ticks) (cfg : HeatpumpConfig) where
  receive-Sent :
      {line behind : List Poll}
      → Sent k.forever (cfg.slave_addr ∷ []) line behind
      → receive k cfg line ≡ receive_header k behind
  unfolding receive
  receive-Sent {behind} w = rw (w.line_is, uart_read_bytes-Spells behind w.spelled) (ground arith)

  receive_header-other :
      (code size : ℕ) {behind rest : List Poll}
      → (code ≢ 0x03) ⊎ (payload_size < size)
      → Sent (k.msec 50) (code ∷ size ∷ []) behind rest
      → receive_header k behind ≡ skip rest
  unfolding receive_header
  receive_header-other code size {rest} h w =
      rw (w.line_is, uart_read_bytes-Spells rest w.spelled) (ground arith)

  receive_header-Sent :
      (size : ℕ) {behind rest : List Poll}
      → size ≤ payload_size
      → Sent (k.msec 50) (0x03 ∷ size ∷ []) behind rest
      → receive_header k behind ≡ receive_payload k size rest
  unfolding receive_header
  receive_header-Sent size {rest} h w =
      rw (w.line_is, uart_read_bytes-Spells rest w.spelled) (ground arith)

  receive_header-Broken :
      {behind rest : List Poll}
      → Broken (k.msec 50) 2 behind rest
      → receive_header k behind ≡ skip rest
  unfolding receive_header
  receive_header-Broken {rest} w =
      rw (w.line_is, w.size_is, uart_read_bytes-Cuts w.missing rest w.cut) refl

  receive_payload-Broken :
      (size : ℕ) {behind rest : List Poll}
      → Broken (k.msec 100) size behind rest
      → receive_payload k size behind ≡ skip rest
  unfolding receive_payload
  receive_payload-Broken size {rest} w =
      rw (w.line_is, w.size_is, uart_read_bytes-Cuts w.missing rest w.cut) refl

  receive-byte :
      (b : ℕ) {line rest : List Poll}
      → b ≢ cfg.slave_addr
      → Sent k.forever (b ∷ []) line rest
      → receive k cfg line ≡ skip rest
  unfolding receive
  receive-byte b {rest} h w = rw (w.line_is, uart_read_bytes-Spells rest w.spelled) (ground arith)

deliver-other :
    (p : Payload) (pending : Bool) (r : Regs)
    → is_block p.size ≡ false
    → deliver p pending r ≡ some (record { registers = r; gave = false })
unfolding deliver
deliver-other p pending r h = ground arith

module _ (k : Ticks) (cfg : HeatpumpConfig) (pending : Bool) (r : Regs) where
  -- The turn ends in a `continue`, or in no case of the `switch`.
  abbrev pub Passes : List Poll → List Poll → Type 0
  Passes line rest =
      sniff k cfg false pending r line
      ≡ ended (record { registers = r; gave = false; slept = false; rest = rest })

  skipped-Passes :
      (line : List Poll) {rest : List Poll} → receive k cfg line ≡ skip rest → Passes line rest
  unfolding sniff of_received of_payload
  skipped-Passes line e = rw e refl

  other_report-Passes :
      (raw : List ℕ) {line rest : List Poll}
      → length raw ≤ payload_size
      → is_block (length raw) ≡ false
      → OnLine k cfg.slave_addr raw line rest
      → Passes line rest
  unfolding sniff of_received of_payload
  other_report-Passes raw {line} {rest} small other w =
      rw
        (
          receive-OnLine k cfg raw line rest w small,
          deliver-other (record { size = length raw; raw = raw }) pending r other,
        )
        refl

  -- If the line starts with a byte that is not the address; with the address and a header in time
  -- that has another function code, or a size over 64; with a whole report in time of a size that
  -- is none of the four blocks'; or with a frame whose header or payload breaks off in a silence
  -- longer than its time limit: then a turn of the sniffer that is not held off ends, leaves all
  -- registers alone, gives no semaphore, and leaves the line behind that byte, header, report or
  -- silence.
  pub sniff-Stray : {line rest : List Poll} → Stray k cfg.slave_addr line rest → Passes line rest
  sniff-Stray (byte b h w) = skipped-Passes _ (receive-byte k cfg b h w)
  sniff-Stray (other_frame code size behind h w v) =
      skipped-Passes _ (receive-Sent k cfg w ∙ receive_header-other k cfg code size h v)
  sniff-Stray (other_report raw small other w) = other_report-Passes raw small other w
  sniff-Stray (broken_header behind w v) =
      skipped-Passes _ (receive-Sent k cfg w ∙ receive_header-Broken k cfg v)
  sniff-Stray (broken_payload size behind payload h w v u) = skipped-Passes _ (
      receive-Sent k cfg w
      ∙ receive_header-Sent k cfg size h v
      ∙ receive_payload-Broken k cfg size u)
