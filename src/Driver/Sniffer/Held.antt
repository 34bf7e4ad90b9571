-- ===== src/Driver/Sniffer/Held.antt =====
-- The registers after any turns of the sniffer, on any line.
use mathlib.Core.Path.{subst}
use haier_controller.Prelude.{
  ℕ, zero, suc, ◌+◌, ◌≤◌, ◌<◌, ◌≡◌, ◌∙◌, Bool, false, List, Option, none, some, arith, length, ◌⊎◌,
  inl, inr, Bool-cases, ◌==◌,
}
use haier_controller.Driver.State.{HeatpumpConfig, Regs, IsRegs}
use haier_controller.Driver.Uart.{Poll, Ticks}
use haier_controller.Driver.Registers.{parse_registers}
use haier_controller.Driver.Registers.Laws.{IsWords}
use haier_controller.Driver.Registers.Kept.{If, If-bind, parse_registers-IsWords}
use haier_controller.Driver.Sniffer.{
  Payload, Received, receive, Delivered, deliver, Turn, Turned, waiting, ended, of_delivered,
  of_payload, of_received, sniff,
}
use haier_controller.Driver.Sniffer.Turns.{sniff-Ends}
use haier_controller.Driver.Sniffer.Rounds.{turns, FitWords, turns-zero, turns-next}

deliver-FitWords :
    (p : Payload) (pending : Bool) (r : Regs)
    → FitWords r
    → If (λ d. FitWords d.registers) (deliver p pending r)
unfolding deliver
deliver-FitWords p pending r w = elim (Bool-cases (p.size == 0x0c)) [
  | inl e ↦ rw e (
      If-bind _ IsWords (parse_registers p.raw r.r101 6) _
        (parse_registers-IsWords p.raw r.r101 6 w.words101)
        (λ ws h. record {
          words101 = h;
          words141 = w.words141;
          words201 = w.words201;
          words241 = w.words241;
        }))
  | inr a ↦ elim (Bool-cases (p.size == 0x20)) [
    | inl e ↦
        rw (a, e)
          (If-bind _ IsWords (parse_registers p.raw r.r141 16) _
            (parse_registers-IsWords p.raw r.r141 16 w.words141)
            (λ ws h. record {
              words101 = w.words101;
              words141 = h;
              words201 = w.words201;
              words241 = w.words241;
            }))
    | inr b ↦ elim (Bool-cases (p.size == 0x02)) [
      | inl e ↦
          rw (a, b, e)
            (If-bind _ IsWords (parse_registers p.raw r.r201 1) _
              (parse_registers-IsWords p.raw r.r201 1 w.words201)
              (λ ws h. record {
                words101 = w.words101;
                words141 = w.words141;
                words201 = h;
                words241 = w.words241;
              }))
      | inr c ↦ elim (Bool-cases (p.size == 0x2c)) [
        | inl e ↦
            rw (a, b, c, e)
              (If-bind _ IsWords (parse_registers p.raw r.r241 22) _
                (parse_registers-IsWords p.raw r.r241 22 w.words241)
                (λ ws h. record {
                  words101 = w.words101;
                  words141 = w.words141;
                  words201 = w.words201;
                  words241 = h;
                }))
        | inr d ↦ rw (a, b, c, d) w
      ]
    ]
  ]
]

module _ (k : Ticks) (cfg : HeatpumpConfig) (pending : Bool) where
  -- What a turn that ended left in the registers.
  abbrev Left : Turned → Type 0
  Left (ended t) = FitWords t.registers
  Left _ = Unit

  of_delivered-Left :
      (rest : List Poll) (o : Option Delivered)
      → If (λ d. FitWords d.registers) o
      → Left (of_delivered rest o)
  of_delivered-Left rest none h = tt
  of_delivered-Left rest (some d) h = h

  of_payload-Left :
      (r : Regs) (rest : List Poll) (p : Option Payload)
      → FitWords r
      → Left (of_payload pending r rest p)
  unfolding of_payload
  of_payload-Left r rest none w = w
  of_payload-Left r rest (some p) w =
      of_delivered-Left rest (deliver p pending r) (deliver-FitWords p pending r w)

  of_received-Left :
      (r : Regs) (got : Option Received) → FitWords r → Left (of_received pending r got)
  unfolding of_received
  of_received-Left r none w = tt
  of_received-Left r (some got) w = of_payload-Left r got.rest got.payload w

  sniff-Left : (r : Regs) (line : List Poll) → FitWords r → Left (sniff k cfg false pending r line)
  unfolding sniff
  sniff-Left r line w = of_received-Left r (receive k cfg line) w

  sniff-FitWords :
      (r : Regs) (line : List Poll) (t : Turn)
      → FitWords r
      → sniff k cfg false pending r line ≡ ended t
      → FitWords t.registers
  sniff-FitWords r line t w e = subst Left e (sniff-Left r line w)

  -- The arrays have their sizes, and hold words of 16 bits.
  pub record IsHeld (r : Regs) : Type 0 where
    pub sizes : IsRegs r
    pub fit : FitWords r

  -- After `n` turns, each of which took something from the line.
  pub record Went (n : ℕ) (r : Regs) (line : List Poll) : Type 0 where
    pub held : Regs
    pub rest : List Poll
    pub ends : turns k cfg pending n r line ≡ some (held, rest)
    pub is_held : IsHeld held
    pub progress : length rest + n ≤ length line

  -- The line ran dry in the turn behind `m` turns.
  pub record Dried (n : ℕ) (r : Regs) (line : List Poll) : Type 0 where
    pub m : ℕ
    pub before : m < n
    pub went : Went m r line
    pub waits : sniff k cfg false pending went.held went.rest ≡ waiting

  abbrev none_yet : (r : Regs) (line : List Poll) → IsHeld r → Went zero r line
  none_yet r line h = record {
    held = r;
    rest = line;
    ends = turns-zero k cfg pending r line;
    is_held = h;
    progress = omega arith;
  }

  abbrev one_more :
      (n : ℕ) (r : Regs) (line : List Poll) (t : Turn)
      → sniff k cfg false pending r line ≡ ended t
      → length t.rest < length line
      → Went n t.registers t.rest
      → Went (suc n) r line
  one_more n r line t e lt w = record {
    held = w.held;
    rest = w.rest;
    ends = turns-next k cfg pending n r line t e ∙ w.ends;
    is_held = w.is_held;
    progress = omega (arith, w.progress);
  }

  -- From registers that have the sizes of their arrays and hold words of 16 bits, on any line and
  -- for any number of turns of the sniffer that is not held off: either all the turns end, each
  -- with something taken from the line, or the line runs dry in a turn behind some of them, which
  -- waits; no turn makes an access outside an array, and the registers keep their sizes and hold
  -- words of 16 bits.
  pub turns-IsHeld :
      (n : ℕ) (r : Regs) (line : List Poll) → IsHeld r → Went n r line ⊎ Dried n r line
  turns-IsHeld zero r line h = inl (none_yet r line h)
  turns-IsHeld (suc n) r line h = elim (sniff-Ends k cfg pending r h.sizes line) [
    | inl e ↦ inr (record { m = zero; before = omega arith; went = none_yet r line h; waits = e })
    | inr (t, e, is) ↦
        let next : IsHeld t.registers = record {
          sizes = is.sizes;
          fit = sniff-FitWords r line t h.fit e;
        } in
        elim (turns-IsHeld n t.registers t.rest next) [
          | inl w ↦ inl (one_more n r line t e is.progress w)
          | inr d ↦ inr (record {
            m = suc d.m;
            before = omega (arith, d.before);
            went = one_more d.m r line t e is.progress d.went;
            waits = d.waits;
          })
        ]
  ]
