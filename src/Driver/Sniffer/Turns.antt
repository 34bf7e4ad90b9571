-- ===== src/Driver/Sniffer/Turns.antt =====
-- A whole turn of the sniffer's loop.
use haier_controller.Prelude.{
  ℕ, ◌≤◌, ◌<◌, ◌≡◌, refl, Bool, false, ◌&&◌, List, Option, none, some, arith, length, ap, ◌⊎◌, inl,
  inr, Option-cases,
}
use haier_controller.Floats.{Floats}
use haier_controller.Cmd.R241.Frame.{Frame, IsFrame, words, Reports}
use haier_controller.Cmd.R241.Laws.{r241-Reports}
use haier_controller.Driver.State.{HeatpumpConfig, Regs, IsRegs}
use haier_controller.Driver.Registers.Laws.{bytes, IsWords, length-bytes}
use haier_controller.Driver.Fits.{words-IsWords}
use haier_controller.Driver.Uart.{Poll, Ticks}
use haier_controller.Driver.Sniffer.{
  Payload, receive, Turn, Turned, waiting, ended, of_delivered, of_payload, of_received, sniff,
  payload_size,
}
use haier_controller.Driver.Sniffer.Deliver.{
  Block, count, put, is_last, deliver-block, deliver-IsDelivered,
}
use haier_controller.Driver.Sniffer.Receive.{OnLine, Fits, receive-OnLine, receive-IsReceived}

small : (b : Block) (ws : List ℕ) → length ws ≡ count b → length (bytes ws) ≤ payload_size
small Block.b101 ws e = omega (arith, length-bytes ws)
small b ws e = omega (arith, length-bytes ws)

module _ (k : Ticks) (cfg : HeatpumpConfig) (pending : Bool) (r : Regs) (ok : IsRegs r) where
  -- If the sniffer is not held off, its arrays have their sizes, and the line starts with a frame
  -- from the configured address that carries one of the four blocks, each part in time, then the
  -- turn stores the words of the block in its array and nowhere else, gives the semaphore exactly
  -- if the block is the last one and a write is pending, and leaves the line behind the frame.
  pub sniff-OnLine :
      (b : Block) (ws : List ℕ) (line rest : List Poll)
      → IsWords ws
      → length ws ≡ count b
      → OnLine k cfg.slave_addr (bytes ws) line rest
      → sniff k cfg false pending r line
        ≡ ended (record {
          registers = put b ws r;
          gave = is_last b && pending;
          slept = false;
          rest = rest;
        })
  unfolding sniff of_received of_payload
  sniff-OnLine b ws line rest h e w = rw (
    receive-OnLine k cfg (bytes ws) line rest w (small b ws e),
    length-bytes ws,
    e,
    deliver-block b ws pending r ok h e,
  )

  -- A turn that ended without sleeping: the arrays keep their sizes, something was taken from the
  -- line, and the semaphore was given only if a write was pending.
  pub record IsTurn (line : List Poll) (t : Turn) : Type 0 where
    pub sizes : IsRegs t.registers
    pub awake : t.slept ≡ false
    pub progress : length t.rest < length line
    pub gives : t.gave ≡ t.gave && pending

  -- A turn that does not wait for the line ends, inside its arrays.
  abbrev pub Ends : List Poll → Turned → Type 0
  Ends line turned = (turned ≡ waiting) ⊎ ((t : Turn) × (turned ≡ ended t) × IsTurn line t)

  of_payload-Ends :
      (line rest : List Poll) (p : Option Payload)
      → Fits p
      → length rest < length line
      → Ends line (of_payload pending r rest p)
  unfolding of_payload
  of_payload-Ends line rest none h lt =
      inr (_, refl, record { sizes = ok; awake = refl; progress = lt; gives = refl })
  of_payload-Ends line rest (some p) h lt =
      let d = deliver-IsDelivered p pending r h.0 ok in
      inr (
        _,
        ap (of_delivered rest) d.ends,
        record { sizes = d.sizes; awake = refl; progress = lt; gives = ground (arith, d.gives) },
      )

  -- Whatever is on the line, a turn of the sniffer that is not held off, over arrays of their
  -- sizes, either still waits for the line or ends without an access outside an array: the arrays
  -- keep their sizes, something was taken from the line, and the semaphore was given only if a
  -- write was pending.
  pub sniff-Ends : (line : List Poll) → Ends line (sniff k cfg false pending r line)
  unfolding sniff of_received
  sniff-Ends line = elim (Option-cases (receive k cfg line)) [
    | inl e ↦ inl (rw e)
    | inr (got, e) ↦
        let is = receive-IsReceived k cfg line got e in
        rw e (of_payload-Ends line got.rest got.payload is.fits is.progress)
  ]

  -- If the line starts with a frame from the configured address that carries the 22 words of a
  -- frame whose quantities fit their bits, each part in time, and the sniffer is not held off and
  -- its arrays have their sizes, then the turn ends and every getter over the block from 241 on
  -- reports from the registers what the heat pump sent.
  pub sniff-Reports :
      (F : Floats) (f : Frame) (line rest : List Poll)
      → IsFrame f
      → OnLine k cfg.slave_addr (bytes (words f)) line rest
      → (t : Turn) × (sniff k cfg false pending r line ≡ ended t) × Reports F f t.registers.r241
  sniff-Reports F f line rest h w = (
    _,
    sniff-OnLine Block.b241 (words f) line rest (words-IsWords f h) refl w,
    r241-Reports F f h,
  )
