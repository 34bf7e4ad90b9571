-- ===== src/Driver/Sniffer/Deliver.antt =====
-- The section under `data_mutex`, for the words of a block and for any payload.
use mathlib.Core.List.{append-nil}
use haier_controller.Prelude.{
  ℕ, ◌*◌, ◌≡◌, sym, ◌∙◌, Bool, true, false, ◌&&◌, List, [], some, arith, length, ◌==◌, Bool-cases,
  inl, inr, ==→eq,
}
use haier_controller.Driver.State.{Regs, IsRegs}
use haier_controller.Driver.Registers.{parse_registers}
use haier_controller.Driver.Registers.Laws.{bytes, IsWords, parse_registers-bytes}
use haier_controller.Driver.Registers.Total.{parse_registers-total}
use haier_controller.Driver.Sniffer.{Payload, Delivered, deliver}

-- The four blocks of registers that the heat pump reports.
pub data Block : Type 0 where
  b101 b141 b201 b241 : Block

abbrev pub count : Block → ℕ
count Block.b101 = 6
count Block.b141 = 16
count Block.b201 = 1
count Block.b241 = 22

abbrev pub put : Block → List ℕ → Regs → Regs
put Block.b101 ws r = record r { r101 = ws }
put Block.b141 ws r = record r { r141 = ws }
put Block.b201 ws r = record r { r201 = ws }
put Block.b241 ws r = record r { r241 = ws }

-- The last block is the one after which the bus is free.
abbrev pub is_last : Block → Bool
is_last Block.b241 = true
is_last _ = false

abbrev payload_of : Block → List ℕ → Payload
payload_of b ws = record { size = count b * 2; raw = bytes ws }

whole :
    (ws old : List ℕ) (n : ℕ)
    → IsWords ws
    → length ws ≡ n
    → length old ≡ n
    → parse_registers (bytes ws) old n ≡ some ws
whole ws old n h e k = rw (append-nil, e) at (parse_registers-bytes ws [] old h (k ∙ sym e))

pub deliver-block :
    (b : Block) (ws : List ℕ) (pending : Bool) (r : Regs)
    → IsRegs r
    → IsWords ws
    → length ws ≡ count b
    → deliver (payload_of b ws) pending r
      ≡ some (record { registers = put b ws r; gave = is_last b && pending })
unfolding deliver
deliver-block Block.b101 ws pending r ok h e = rw (whole ws r.r101 6 h e ok.six)
deliver-block Block.b141 ws pending r ok h e = rw (whole ws r.r141 16 h e ok.sixteen)
deliver-block Block.b201 ws pending r ok h e = rw (whole ws r.r201 1 h e ok.one)
deliver-block Block.b241 ws pending r ok h e = rw (whole ws r.r241 22 h e ok.twenty_two)

-- Whatever was received, the section ends, keeps the sizes of the arrays, and gives the semaphore
-- only if a write is pending and the last block came.
pub record IsDelivered (p : Payload) (pending : Bool) (r : Regs) : Type 0 where
  pub result : Delivered
  pub ends : deliver p pending r ≡ some result
  pub sizes : IsRegs result.registers
  pub gives : result.gave ≡ (p.size == 0x2c) && pending

module _ (p : Payload) (pending : Bool) (r : Regs) (fits : length p.raw ≡ p.size)
    (ok : IsRegs r) where
  size_is : (n : ℕ) → (p.size == n) ≡ true → length p.raw ≡ n
  size_is n e = fits ∙ ==→eq p.size n e

  in101 : (p.size == 0x0c) ≡ true → IsDelivered p pending r
  unfolding deliver
  in101 e =
      let (ws, parsed, same) = parse_registers-total p.raw r.r101 6 (size_is 0x0c e) ok.six in
      record {
        result = record { registers = record r { r101 = ws }; gave = false };
        ends = rw (e, parsed);
        sizes = record {
          six = same;
          sixteen = ok.sixteen;
          one = ok.one;
          twenty_two = ok.twenty_two;
        };
        gives = ground arith;
      }

  in141 : (p.size == 0x20) ≡ true → IsDelivered p pending r
  unfolding deliver
  in141 e =
      let (ws, parsed, same) = parse_registers-total p.raw r.r141 16 (size_is 0x20 e) ok.sixteen in
      record {
        result = record { registers = record r { r141 = ws }; gave = false };
        ends = ground (arith, parsed);
        sizes = record { six = ok.six; sixteen = same; one = ok.one; twenty_two = ok.twenty_two };
        gives = ground arith;
      }

  in201 : (p.size == 0x02) ≡ true → IsDelivered p pending r
  unfolding deliver
  in201 e =
      let (ws, parsed, same) = parse_registers-total p.raw r.r201 1 (size_is 0x02 e) ok.one in
      record {
        result = record { registers = record r { r201 = ws }; gave = false };
        ends = ground (arith, parsed);
        sizes = record {
          six = ok.six;
          sixteen = ok.sixteen;
          one = same;
          twenty_two = ok.twenty_two;
        };
        gives = ground arith;
      }

  in241 : (p.size == 0x2c) ≡ true → IsDelivered p pending r
  unfolding deliver
  in241 e =
      let (ws, parsed, same) =
        parse_registers-total p.raw r.r241 22 (size_is 0x2c e) ok.twenty_two in
      record {
        result = record { registers = record r { r241 = ws }; gave = pending };
        ends = ground (arith, parsed);
        sizes = record { six = ok.six; sixteen = ok.sixteen; one = ok.one; twenty_two = same };
        gives = ground arith;
      }

  in_none :
      (p.size == 0x0c) ≡ false
      → (p.size == 0x20) ≡ false
      → (p.size == 0x02) ≡ false
      → (p.size == 0x2c) ≡ false
      → IsDelivered p pending r
  unfolding deliver
  in_none a b c d = record {
    result = record { registers = r; gave = false };
    ends = rw (a, b, c, d);
    sizes = ok;
    gives = rw d;
  }

  pub deliver-IsDelivered : IsDelivered p pending r
  deliver-IsDelivered = elim (Bool-cases (p.size == 0x0c)) [
    | inl e ↦ in101 e
    | inr a ↦ elim (Bool-cases (p.size == 0x20)) [
      | inl e ↦ in141 e
      | inr b ↦ elim (Bool-cases (p.size == 0x02)) [
        | inl e ↦ in201 e
        | inr c ↦ elim (Bool-cases (p.size == 0x2c)) [ inl e ↦ in241 e | inr d ↦ in_none a b c d ]
      ]
    ]
  ]
