-- ===== src/Examples/Line.antt =====
-- Frames of the heat pump at work on the line, whole and broken.
use haier_controller.Prelude.{
  ℕ, ◌≡◌, refl, true, false, List, [], ◌∷◌, ◌++◌, some, none, arith, length,
}
use haier_controller.Floats.Exact.{exact}
use haier_controller.Cmd.R241.Frame as F241
use haier_controller.Driver.Uart.{
  Poll, within, start_time, read_loop, uart_read_bytes, expired, needed, received,
}
use haier_controller.Driver.Uart.Laws.{Spells, next, done}
use haier_controller.Driver.Uart.Cut.{Cuts, stops}
use haier_controller.Driver.Sniffer.Strays.{Stray, broken_header, sniff-Stray}
use haier_controller.Driver.Registers.Laws.{bytes}
use haier_controller.Driver.Fits.{words-IsWords}
use haier_controller.Driver.Sniffer.{Turn, ended, sniff}
use haier_controller.Driver.Sniffer.Receive.{OnLine}
use haier_controller.Driver.Sniffer.Deliver.{Block}
use haier_controller.Driver.Sniffer.Turns.{Ends, sniff-OnLine, sniff-Ends, sniff-Reports}
use haier_controller.Examples.Data.{frame241, frame241-IsFrame, regs, regs-IsRegs, ticks, cfg}

-- Bytes that come in one millisecond.
abbrev pub at_once : List ℕ → List Poll
at_once [] = []
at_once (b ∷ bs) = record { started = 0; byte = some b; checked = 0 } ∷ at_once bs

pub at_once-Spells : (limit : ℕ) (bs : List ℕ) → Spells limit 0 bs (at_once bs)
at_once-Spells limit [] = done
at_once-Spells limit (b ∷ bs) = next _ refl (omega arith) (at_once-Spells limit bs)

abbrev pub framed_before : List ℕ → List Poll → List Poll
framed_before raw rest =
    at_once (17 ∷ []) ++ (at_once (0x03 ∷ length raw ∷ []) ++ (at_once raw ++ rest))

abbrev framed : List ℕ → List Poll
framed raw = framed_before raw []

payload-Spells :
    (raw : List ℕ) (rest : List Poll)
    → Spells 100 (start_time (at_once raw ++ rest)) raw (at_once raw)
unfolding start_time
payload-Spells [] rest = done
payload-Spells (b ∷ bs) rest = at_once-Spells 100 (b ∷ bs)

pub framed-OnLine :
    (raw : List ℕ) (rest : List Poll) → OnLine ticks 17 raw (framed_before raw rest) rest
unfolding start_time
framed-OnLine raw rest = record {
  addr_polls = at_once (17 ∷ []);
  header_polls = at_once (0x03 ∷ length raw ∷ []);
  payload_polls = at_once raw;
  line_is = refl;
  addr_spelled = at_once-Spells _ _;
  header_spelled = at_once-Spells _ _;
  payload_spelled = payload-Spells raw rest;
}

-- The second byte comes too late.
abbrev late : List Poll
late =
    record { started = 0; byte = some 3; checked = 10 }
    ∷ record { started = 10; byte = none; checked = 51 }
    ∷ record { started = 51; byte = some 12; checked = 52 }
    ∷ []

abbrev after_late : List Poll
after_late = record { started = 51; byte = some 12; checked = 52 } ∷ []

late_test :
    uart_read_bytes 2 (within 50) late
    ≡ some (record { complete = false; buf = 3 ∷ []; rest = after_late })
unfolding uart_read_bytes read_loop start_time expired needed received
late_test = refl

-- The address, and a header that breaks off.
broken : Stray ticks 17 (at_once (17 ∷ []) ++ late) after_late
unfolding start_time
broken =
    broken_header late
      (record { polls = at_once (17 ∷ []); line_is = refl; spelled = at_once-Spells _ _ })
      (record {
        came = 3 ∷ [];
        missing = 0;
        size_is = refl;
        polls = _;
        line_is = refl;
        cut = Cuts.next _ refl (omega arith) (stops _ refl (omega arith));
      })

sniff-Stray_example :
    sniff ticks cfg false true regs (at_once (17 ∷ []) ++ late)
    ≡ ended (record { registers = regs; gave = false; slept = false; rest = after_late })
sniff-Stray_example = sniff-Stray ticks cfg true regs broken

-- The block from 241 on ends the round, so the waiting writer is let through.
sniff-OnLine_example :
    sniff ticks cfg false true regs (framed (bytes (F241.words frame241)))
    ≡ ended (record { registers = regs; gave = true; slept = false; rest = [] })
sniff-OnLine_example =
    sniff-OnLine ticks cfg true regs regs-IsRegs Block.b241 (F241.words frame241)
      (framed (bytes (F241.words frame241))) [] (words-IsWords frame241 frame241-IsFrame) refl
      (framed-OnLine _ [])

sniff-Reports_example :
    (t : Turn) × (sniff ticks cfg false true regs (framed (bytes (F241.words frame241))) ≡ ended t)
    × F241.Reports exact frame241 t.registers.r241
sniff-Reports_example =
    sniff-Reports ticks cfg true regs regs-IsRegs exact frame241
      (framed (bytes (F241.words frame241))) [] frame241-IsFrame (framed-OnLine _ [])

-- A frame of another address.
sniff-Ends_example :
    Ends ticks cfg true regs regs-IsRegs
      (at_once (18 ∷ []))
      (sniff ticks cfg false true regs (at_once (18 ∷ [])))
sniff-Ends_example = sniff-Ends ticks cfg true regs regs-IsRegs (at_once (18 ∷ []))
