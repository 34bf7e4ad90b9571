-- ===== src/Examples/Rounds.antt =====
-- A round of reports on the line, and the status packet after it.
use haier_controller.Prelude.{ℕ, ◌≢◌, ◌⊎◌, ◌++◌, ◌∷◌, ◌≡◌, refl, true, List, [], some, pos, arith}
use haier_controller.Floats.Exact.{exact, half}
use haier_controller.Cmd.Types.{HeatpumpMode, ◌>>=◌}
use haier_controller.Cmd.R101.Frame as F101
use haier_controller.Cmd.R141.Frame as F141
use haier_controller.Cmd.R241.Frame as F241
use haier_controller.Driver.State.{Regs, IsRegs}
use haier_controller.Driver.Uart.{Poll}
use haier_controller.Driver.Registers.Laws.{bytes}
use haier_controller.Driver.Fits.{words-IsWords}
use haier_controller.Driver.Sniffer.Rounds.{turns, Round, FitWords}
use haier_controller.App.Status.{mode_value, threeway_value, get_status}
use haier_controller.App.Status.Rounds.{get_status-turns}
use haier_controller.Examples.Topics.{zeros}
use haier_controller.Examples.Data.{
  settings, settings-IsSettings, frame141, frame141-IsFrame, frame241, frame241-IsFrame, regs,
  regs_off, regs-IsRegs, ticks, cfg,
}
use haier_controller.Driver.Sniffer.Held.{IsHeld, Went, Dried, turns-IsHeld}
use haier_controller.Examples.Line.{at_once, at_once-Spells, framed_before, framed-OnLine}
use haier_controller.Driver.Uart.{start_time}
use haier_controller.Driver.Sniffer.Strays.{Stray, Strays, done, byte, stray, other_report}
use haier_controller.Examples.Readings.{locals}
use haier_controller.Cmd.R201.Frame.{means_quiet}

pub regs_off-IsRegs : IsRegs regs_off
regs_off-IsRegs = record { six = refl; sixteen = refl; one = refl; twenty_two = refl }

pub regs-FitWords : FitWords regs
regs-FitWords = record {
  words101 = grind arith;
  words141 = grind arith;
  words201 = grind arith;
  words241 = words-IsWords frame241 frame241-IsFrame;
}

-- The two bytes of a checksum.
abbrev pub checked : List Poll → List Poll
checked rest = at_once (1 ∷ []) ++ (at_once (2 ∷ []) ++ rest)

byte-Stray : (b : ℕ) (rest : List Poll) → b ≢ 17 → Stray ticks 17 (at_once (b ∷ []) ++ rest) rest
unfolding start_time
byte-Stray b rest h =
    byte b h (record { polls = at_once (b ∷ []); line_is = refl; spelled = at_once-Spells _ _ })

checked-Strays : (rest : List Poll) → Strays ticks 17 rest 2 (checked rest)
checked-Strays rest =
    stray _ (byte-Stray 1 _ (grind arith)) (stray _ (byte-Stray 2 rest (grind arith)) done)

-- A request, up to the first byte of the number of its register.
abbrev asked : List Poll → List Poll
asked rest = framed_before [] rest

asked-Strays : (rest : List Poll) → Strays ticks 17 rest 1 (asked rest)
asked-Strays rest = stray rest (other_report [] (omega arith) refl (framed-OnLine [] rest)) done

abbrev from241 : List Poll
from241 = checked (framed_before (bytes regs.r241) (checked []))

abbrev from201 : List Poll
from201 = checked (framed_before (bytes regs.r201) from241)

abbrev from141 : List Poll
from141 = checked (framed_before (bytes regs.r141) from201)

abbrev pub from101 : List Poll
from101 = asked (framed_before (bytes regs.r101) from141)

pub round : Round ticks 17 regs from101 (checked [])
round = record {
  line1 = from141;
  line2 = from201;
  line3 = from241;
  block101 = record {
    count = 1;
    start = _;
    strays = asked-Strays _;
    frame = framed-OnLine (bytes regs.r101) from141;
  };
  block141 = record {
    count = 2;
    start = _;
    strays = checked-Strays _;
    frame = framed-OnLine (bytes regs.r141) from201;
  };
  block201 = record {
    count = 2;
    start = _;
    strays = checked-Strays _;
    frame = framed-OnLine (bytes regs.r201) from241;
  };
  block241 = record {
    count = 2;
    start = _;
    strays = checked-Strays _;
    frame = framed-OnLine (bytes regs.r241) (checked []);
  };
}

-- Before the round the heat pump was off.
get_status-turns_example :
    (turns ticks cfg true 11 regs_off from101 >>= λ seen. get_status exact seen.0 (half 37) locals)
    ≡ some (record {
      ambient_temp = half 37;
      ch_temp = F141.tenths exact (pos 301);
      dhw_temp = F141.tenths exact (pos 455);
      ch_target_temp = F101.halves exact (pos 70);
      dhw_target_temp = F101.halves exact (pos 96);
      opr_mode = 1;
      valve_state = 2;
      tank_state = 1;
      heater_state = 6;
      driver_state = 1;
    })
unfolding mode_value threeway_value round
get_status-turns_example =
    get_status-turns exact settings frame141 1 HeatpumpMode.quiet (F241.words frame241) ticks cfg
      true regs_off from101 (checked []) (half 37) locals settings-IsSettings frame141-IsFrame
      means_quiet regs_off-IsRegs regs-IsRegs regs-FitWords round

-- Nothing was heard yet.
abbrev silent : Regs
silent = record { r101 = zeros 6; r141 = zeros 16; r201 = zeros 1; r241 = zeros 22 }

silent-IsHeld : IsHeld ticks cfg true silent
silent-IsHeld = record {
  sizes = record { six = refl; sixteen = refl; one = refl; twenty_two = refl };
  fit = record {
    words101 = grind arith;
    words141 = grind arith;
    words201 = grind arith;
    words241 = grind arith;
  };
}

turns-IsHeld_example :
    Went ticks cfg true 12 silent from101 ⊎ Dried ticks cfg true 12 silent from101
turns-IsHeld_example = turns-IsHeld ticks cfg true 12 silent from101 silent-IsHeld
