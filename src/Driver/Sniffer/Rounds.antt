-- ===== src/Driver/Sniffer/Rounds.antt =====
-- Several turns of the sniffer's loop, and the round in which the four blocks are reported.
use haier_controller.Prelude.{
  ℕ, zero, suc, ◌≡◌, ◌∙◌, refl, Bool, false, List, Option, none, some, length,
}
use haier_controller.Driver.State.{HeatpumpConfig, Regs, IsRegs}
use haier_controller.Driver.Uart.{Poll, Ticks}
use haier_controller.Driver.Registers.Laws.{bytes, IsWords}
use haier_controller.Driver.Sniffer.{Turn, Turned, ended, sniff}
use haier_controller.Driver.Sniffer.Receive.{OnLine}
use haier_controller.Driver.Sniffer.Strays.{Strays, done, stray, sniff-Stray}
use haier_controller.Driver.Sniffer.Deliver.{Block, count, put}
use haier_controller.Driver.Sniffer.Turns.{sniff-OnLine}

-- What follows a turn, if it ended.
abbrev pub after : {A : Type 0} → Turned → (Regs → List Poll → Option A) → Option A
after (ended t) next = next t.registers t.rest
after _ next = none

-- `while(1)`, for as many turns, while no write is under way: the registers, and what is left of
-- the line. `none` is a turn that still waits.
pub turns : Ticks → HeatpumpConfig → Bool → ℕ → Regs → List Poll → Option (Regs × List Poll)
turns k cfg pending zero r line = some (r, line)
turns k cfg pending (suc n) r line =
    after (sniff k cfg false pending r line) (λ r' rest. turns k cfg pending n r' rest)

-- A report of a block, and what comes before it since the last one.
pub record Comes (k : Ticks) (addr : ℕ) (raw : List ℕ) (line rest : List Poll) : Type 0 where
  pub count : ℕ
  pub start : List Poll
  pub strays : Strays k addr start count line
  pub frame : OnLine k addr raw start rest

-- The four blocks on the line, one after the other.
pub record Round (k : Ticks) (addr : ℕ) (r : Regs) (line rest : List Poll) : Type 0 where
  pub line1 : List Poll
  pub line2 : List Poll
  pub line3 : List Poll
  pub block101 : Comes k addr (bytes r.r101) line line1
  pub block141 : Comes k addr (bytes r.r141) line1 line2
  pub block201 : Comes k addr (bytes r.r201) line2 line3
  pub block241 : Comes k addr (bytes r.r241) line3 rest

-- `n` turns more than `m`.
abbrev pub plus : ℕ → ℕ → ℕ
plus zero m = m
plus (suc n) m = suc (plus n m)

-- The turns that a round takes: one for each report, and one for each stray byte and request.
abbrev pub length_of :
    {k : Ticks} {addr : ℕ} {r : Regs} {line rest : List Poll} → Round k addr r line rest → ℕ
length_of w =
    plus w.block101.count
      (suc (plus w.block141.count (suc (plus w.block201.count (suc (plus w.block241.count 1))))))

-- The words of every block fit 16 bits.
pub record FitWords (r : Regs) : Type 0 where
  pub words101 : IsWords r.r101
  pub words141 : IsWords r.r141
  pub words201 : IsWords r.r201
  pub words241 : IsWords r.r241

module _ (k : Ticks) (cfg : HeatpumpConfig) (pending : Bool) where
  pub turns-zero : (r : Regs) (line : List Poll) → turns k cfg pending 0 r line ≡ some (r, line)
  unfolding turns
  turns-zero r line = refl

  pub turns-next :
      (n : ℕ) (r : Regs) (line : List Poll) (t : Turn)
      → sniff k cfg false pending r line ≡ ended t
      → turns k cfg pending (suc n) r line ≡ turns k cfg pending n t.registers t.rest
  unfolding turns
  turns-next n r line t e = rw e

  turns-suc :
      (n : ℕ) (old : Regs) (ok : IsRegs old) (b : Block) (ws : List ℕ) (line rest : List Poll)
      → IsWords ws
      → length ws ≡ count b
      → OnLine k cfg.slave_addr (bytes ws) line rest
      → turns k cfg pending (suc n) old line ≡ turns k cfg pending n (put b ws old) rest
  unfolding turns
  turns-suc n old ok b ws line rest h e w =
      rw (sniff-OnLine k cfg pending old ok b ws line rest h e w)

  turns-Strays :
      (rest : List Poll) (m : ℕ) (r : Regs) (n : ℕ) (line : List Poll)
      → Strays k cfg.slave_addr rest n line
      → turns k cfg pending (plus n m) r line ≡ turns k cfg pending m r rest
  unfolding turns
  turns-Strays rest m r _ line done = refl
  turns-Strays rest m r _ line (stray {n} more w strays) =
      rw (sniff-Stray k cfg pending r w) (turns-Strays rest m r n more strays)

  turns-Comes :
      (n : ℕ) (old : Regs) (ok : IsRegs old) (b : Block) (ws : List ℕ) (line rest : List Poll)
      → IsWords ws
      → length ws ≡ count b
      → (w : Comes k cfg.slave_addr (bytes ws) line rest)
      → turns k cfg pending (plus w.count (suc n)) old line
        ≡ turns k cfg pending n (put b ws old) rest
  turns-Comes n old ok b ws line rest h e w =
      turns-Strays w.start (suc n) old w.count line w.strays
      ∙ turns-suc n old ok b ws w.start rest h e w.frame

  pub turns-Round :
      (old r : Regs) (line rest : List Poll)
      → IsRegs old
      → IsRegs r
      → FitWords r
      → (w : Round k cfg.slave_addr r line rest)
      → turns k cfg pending (length_of w) old line ≡ some (r, rest)
  turns-Round old r line rest ok new fit w =
      turns-Comes _ old ok Block.b101 r.r101 line w.line1 fit.words101 new.six w.block101
      ∙ turns-Comes _ _ ok1 Block.b141 r.r141 w.line1 w.line2 fit.words141 new.sixteen w.block141
      ∙ turns-Comes _ _ ok2 Block.b201 r.r201 w.line2 w.line3 fit.words201 new.one w.block201
      ∙ turns-Comes 0 _ ok3 Block.b241 r.r241 w.line3 rest fit.words241 new.twenty_two w.block241
      ∙ turns-zero r rest
    where
      ok1 : IsRegs (put Block.b101 r.r101 old)
      ok1 = record { six = new.six; sixteen = ok.sixteen; one = ok.one; twenty_two = ok.twenty_two }

      ok2 : IsRegs (put Block.b141 r.r141 (put Block.b101 r.r101 old))
      ok2 = record {
        six = new.six;
        sixteen = new.sixteen;
        one = ok.one;
        twenty_two = ok.twenty_two;
      }

      ok3 : IsRegs (put Block.b201 r.r201 (put Block.b141 r.r141 (put Block.b101 r.r101 old)))
      ok3 = record {
        six = new.six;
        sixteen = new.sixteen;
        one = new.one;
        twenty_two = ok.twenty_two;
      }
