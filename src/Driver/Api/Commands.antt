-- ===== src/Driver/Api/Commands.antt =====
-- What the setters of the API send.
use haier_controller.Prelude.{
  ℕ, zero, suc, ◌+◌, ◌≤◌, ◌<◌, ◌≡◌, refl, ℤ, pos, negsuc, Bool, true, false, ◌||◌, List, [], ◌∷◌,
  Option, none, some, arith, ltb, Bool-cases, inl, inr, length, if◌then◌else◌,
}
use haier_controller.Prelude.Int.{ltb_ℤ}
use haier_controller.Floats.{Floats, Rounds}
use haier_controller.Cmd.Types.{Code}
use haier_controller.Cmd.R101.Frame.{Settings, IsSettings, words}
use haier_controller.Cmd.R201.{get_mode}
use haier_controller.Cmd.Set.{set_mode, mode_command, store}
use haier_controller.Cmd.Set.Words.{command}
use haier_controller.Cmd.Set.Temperatures.{
  set_ch_temp-words, set_dhw_temp-words, set_ch_temp-undefined,
}
use haier_controller.Cmd.Set.States.{IsChange, requested, flag_of, set_state-words}
use haier_controller.Cmd.Set.Total.{is_request, set_state-total}
use haier_controller.Driver.State.{Regs, IsRegs}
use haier_controller.Driver.Api.{
  Plan, state_of_int, mode_of_int, out_of_range, set_pump_mode, set_pump_state, set_pump_ch_temp,
  set_pump_dhw_temp,
}

-- The call succeeds, and hands the registers `regs` to write_pump for the address `addr`.
abbrev pub sends : ℕ → List ℕ → Option Plan
sends addr regs = some (record { code = Code.success; write = some (addr, regs) })

abbrev turned_down : Plan
turned_down = record { code = Code.einval; write = none }

-- The requests, by the value of the `int`.
abbrev is_state : ℤ → Bool
is_state (pos n) = ltb n 7
is_state (negsuc n) = false

abbrev pub is_call : Option (ℕ × List ℕ) → Bool
is_call none = false
is_call (some w) = true

is_request-state_of_int : (n : ℕ) → n < 7 → is_request (state_of_int (pos n)) ≡ true
unfolding state_of_int
is_request-state_of_int n h = ground arith

outside : (v : ℤ) → is_state v ≡ false → (ltb_ℤ v (pos 0) || ltb_ℤ (pos 6) v) ≡ true
outside (pos n) h = ground arith
outside (negsuc n) h = ground arith

inside : (n : ℕ) → ltb n 7 ≡ true → (ltb_ℤ (pos n) (pos 0) || ltb_ℤ (pos 6) (pos n)) ≡ false
inside n h = ground arith

-- Whatever int heatpump_set_state is called with, over an array of six and registers of their
-- sizes, it returns: with success and registers for write_pump if the value is one of the seven
-- states, and with -EINVAL and no write otherwise.
pub set_pump_state-total :
    (r : Regs) (v : ℤ) (regs : List ℕ)
    → IsRegs r
    → length regs ≡ 6
    → (p : Plan) × (set_pump_state r v regs ≡ some p)
      × (is_call p.write ≡ is_state v)
      × (p.code ≡ (if is_state v then Code.success else Code.einval))
unfolding set_pump_state
set_pump_state-total r (negsuc n) regs ok six =
    (turned_down, rw (outside (negsuc n) refl), refl, refl)
set_pump_state-total r (pos n) regs ok six = elim (Bool-cases (ltb n 7)) [
  | inl e ↦
      let (sent, answer, len) =
        set_state-total r.r101 regs (state_of_int (pos n)) ok.six six
          (is_request-state_of_int n (ground arith)) in
      (
        record { code = Code.success; write = some (101, sent) },
        rw (inside n e, answer),
        rw e refl,
        rw e refl,
      )
  | inr e ↦ (turned_down, rw (outside (pos n) e), rw e refl, rw e refl)
]

module _ (s : Settings) (ok : IsSettings s) (r : Regs) (known : r.r101 ≡ words s) (regs : List ℕ)
    (six : length regs ≡ 6) where
  -- For registers that hold the words of settings that fit, an array of six, and a value below 7
  -- whose request changes the state (on while off, off while on, or one of the five presets),
  -- heatpump_set_state succeeds and hands to write_pump, for address 101, the words of the
  -- requested settings under the flag of the request.
  pub set_pump_state-sends :
      (n : ℕ)
      → n < 7
      → IsChange (state_of_int (pos n)) s
      → set_pump_state r (pos n) regs
        ≡ sends 101 (
            words (command (flag_of (state_of_int (pos n))) 0 (requested (state_of_int (pos n)) s)))
  unfolding set_pump_state
  set_pump_state-sends n small change =
      rw (
        inside n (ground arith),
        known,
        set_state-words s ok regs six (state_of_int (pos n)) change,
      )

  module _ (F : Floats) (L : Rounds F) (t : F.Float) (z : ℤ) (finite : F.trunc t ≡ some z)
      (accepted : out_of_range F t ≡ false) where
    in_half_degrees :
        (n : ℕ) × (F.trunc (F.mul t (F.literal 2 0)) ≡ some (pos n)) × (12 ≤ n) × (n ≤ 100)
    unfolding out_of_range
    in_half_degrees = L.in_range t z finite (ground arith) (ground arith)

    -- For registers that hold the words of settings that fit, an array of six, and a finite
    -- number that the guard lets through, heatpump_set_ch_temp succeeds and hands to write_pump,
    -- for address 101, the words of the same settings with the heating target replaced by the
    -- number in half degrees, cut to an integer from 12 to 100, under command flag 4.
    pub set_pump_ch_temp-sends :
        (n : ℕ) × (F.trunc (F.mul t (F.literal 2 0)) ≡ some (pos n))
        × (12 ≤ n)
        × (n ≤ 100)
        × (set_pump_ch_temp F r t regs ≡ sends 101 (words (command 4 0 (record s { ch_temp = n }))))
    unfolding set_pump_ch_temp
    set_pump_ch_temp-sends =
        let (n, cut, low, high) = in_half_degrees in
        (
          n,
          cut,
          low,
          high,
          rw (accepted, known, set_ch_temp-words F s ok t regs six n cut (omega arith)),
        )

    -- For registers that hold the words of settings that fit, an array of six, and a finite
    -- number that the guard lets through, heatpump_set_dhw_temp succeeds and hands to write_pump,
    -- for address 101, the words of the same settings with the tank target replaced by the number
    -- in half degrees, cut to an integer from 12 to 100, under no command flag and mark 2.
    pub set_pump_dhw_temp-sends :
        (n : ℕ) × (F.trunc (F.mul t (F.literal 2 0)) ≡ some (pos n))
        × (12 ≤ n)
        × (n ≤ 100)
        × (set_pump_dhw_temp F r t regs
            ≡ sends 101 (words (command 0 2 (record s { dhw_target = pos n }))))
    unfolding set_pump_dhw_temp
    set_pump_dhw_temp-sends =
        let (n, cut, low, high) = in_half_degrees in
        (
          n,
          cut,
          low,
          high,
          rw (accepted, known, set_dhw_temp-words F s ok t regs six n cut (omega arith)),
        )

-- For registers of their sizes, a value for which both comparisons of the guard are false, and
-- whose double has no integral part, passes the guard of heatpump_set_ch_temp and makes the cast
-- to `uint16_t` undefined.
pub set_pump_ch_temp-nan :
    (F : Floats) (r : Regs) (t : F.Float) (regs : List ℕ)
    → IsRegs r
    → F.flt t (F.of_int (pos 6)) ≡ false
    → F.flt (F.of_int (pos 50)) t ≡ false
    → F.trunc (F.mul t (F.literal 2 0)) ≡ none
    → set_pump_ch_temp F r t regs ≡ none
unfolding set_pump_ch_temp out_of_range
set_pump_ch_temp-nan F r t regs ok low high nan =
    rw (low, high, set_ch_temp-undefined F r.r101 t regs ok.six nan)

-- For a value below 3 and an array of one, heatpump_set_mode succeeds and hands to write_pump,
-- for address 201, the value under flag 1, and get_mode reads that value as the mode that was
-- asked for.
pub set_pump_mode-sends :
    (n o : ℕ)
    → n < 3
    → (set_pump_mode (pos n) (o ∷ []) ≡ sends 201 ((0x0100 + n) ∷ []))
      × (get_mode (n ∷ []) 1 ≡ some (mode_of_int (pos n)))
unfolding set_pump_mode mode_of_int get_mode set_mode mode_command store
set_pump_mode-sends zero o h = (refl, refl)
set_pump_mode-sends (suc zero) o h = (refl, refl)
set_pump_mode-sends (suc (suc zero)) o h = (refl, refl)
set_pump_mode-sends (suc (suc (suc n))) o h = absurd (omega arith)
