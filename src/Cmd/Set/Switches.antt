-- ===== src/Cmd/Set/Switches.antt =====
-- The commands for the heater, the pump and the mode.
use mathlib.Core.Bool.{false≢true}
use haier_controller.Prelude.{
  ℕ, ◌+◌, ◌*◌, ◌/◌, ◌%◌, ◌<◌, ◌≡◌, refl, List, [], ◌∷◌, some, Bool, true, false, arith, length,
  bit_and, bit_or, ◌==◌, ==→eq, if◌then◌else◌,
}
use haier_controller.Prelude.Bits.{
  bit_and_0x0f, bit_and_0xff, bit_or_disjoint, all_below, all_below_elim,
}
use haier_controller.Cmd.Types.{reply, HeatpumpMode}
use haier_controller.Cmd.R101.Frame.{Settings, IsSettings, words, status_byte}
use haier_controller.Cmd.R201.{get_mode}
use haier_controller.Cmd.Set.{set_heater, set_pump, set_mode, mode_command, store}
use haier_controller.Cmd.Set.Words.{command, store6_lem, low_part, status_byte-lt}

-- The settings with one of the four middle bits of the status byte set: the heater's is the lowest
-- of the four, and the pump's the third.
abbrev pub raised : ℕ → Settings → Settings
raised v s = record s {
  spare = λ i.
      if i == 0 then (if s.spare 0 / v % 2 == 1 then s.spare 0 else s.spare 0 + v) else s.spare i;
}

-- What a request to enable, or to disable, sends: a cleared bit cannot be asked for.
abbrev pub switched : ℕ → Bool → Settings → Settings
switched v true s = raised v s
switched v false s = s

heater_table :
    all_below 256 (λ b. bit_or 0x1008 b == 0x1000 + (if b / 8 % 2 == 1 then b else b + 8)) ≡ true
unfolding all_below
heater_table = refl

pump_table :
    all_below 256 (λ b. bit_or 0x2020 b == 0x2000 + (if b / 32 % 2 == 1 then b else b + 32)) ≡ true
unfolding all_below
pump_table = refl

heater_or : (b : ℕ) → b < 256 → bit_or 0x1008 b ≡ 0x1000 + (if b / 8 % 2 == 1 then b else b + 8)
heater_or b h = ==→eq _ _ (all_below_elim 256 _ b heater_table h)

pump_or : (b : ℕ) → b < 256 → bit_or 0x2020 b ≡ 0x2000 + (if b / 32 % 2 == 1 then b else b + 32)
pump_or b h = ==→eq _ _ (all_below_elim 256 _ b pump_table h)

module _ (s : Settings) (ok : IsSettings s) where
  low_status : bit_and (s.spare 1 * 256 + status_byte s) 0xff % 256 ≡ status_byte s
  low_status = omega (
    arith,
    low_part (s.spare 1) (status_byte s) (status_byte-lt s ok.middle),
    status_byte-lt s ok.middle,
  )

  heater_word : bit_or 0x1008 (status_byte s) ≡ 0x10 * 256 + status_byte (raised 1 s)
  heater_word = ground (arith, heater_or (status_byte s), status_byte-lt s ok.middle, ok.middle)

  pump_word : bit_or 0x2020 (status_byte s) ≡ 0x20 * 256 + status_byte (raised 4 s)
  pump_word = ground (arith, pump_or (status_byte s), status_byte-lt s ok.middle, ok.middle)

  module _ (out : List ℕ) (six : length out ≡ 6) where
    -- For the words of settings that fit and an array of six, set_heater returns the same
    -- settings under command flag 0x10, with the heater's bit set if it is to be enabled, and
    -- with the bit as it was if it is to be disabled.
    pub set_heater-words :
        (enable : Bool)
        → set_heater (some (words s)) 6 enable (some out)
          ≡ reply (words (command 0x10 0 (switched 1 enable s)))
    unfolding set_heater
    set_heater-words true =
        rw
          (
            store6_lem out _ _ _ _ _ _ six,
            low_status,
            heater_word,
            bit_and_0x0f (s.spare 3),
            bit_and_0xff (s.spare 4),
          )
          (ground arith)
    set_heater-words false =
        rw
          (
            store6_lem out _ _ _ _ _ _ six,
            low_status,
            bit_or_disjoint 8 0x10 (status_byte s) (status_byte-lt s ok.middle),
            bit_and_0x0f (s.spare 3),
            bit_and_0xff (s.spare 4),
          )
          (ground arith)

    -- For the words of settings that fit and an array of six, set_pump returns the same settings
    -- under command flag 0x20, with the pump's bit set if it is to be enabled, and with the bit
    -- as it was if it is to be disabled.
    pub set_pump-words :
        (enable : Bool)
        → set_pump (some (words s)) 6 enable (some out)
          ≡ reply (words (command 0x20 0 (switched 4 enable s)))
    unfolding set_pump
    set_pump-words true =
        rw
          (
            store6_lem out _ _ _ _ _ _ six,
            low_status,
            pump_word,
            bit_and_0x0f (s.spare 3),
            bit_and_0xff (s.spare 4),
          )
          (ground arith)
    set_pump-words false =
        rw
          (
            store6_lem out _ _ _ _ _ _ six,
            low_status,
            bit_or_disjoint 8 0x20 (status_byte s) (status_byte-lt s ok.middle),
            bit_and_0x0f (s.spare 3),
            bit_and_0xff (s.spare 4),
          )
          (ground arith)

    -- For the words of settings that fit and an array of six, set_heater under command flag 0x10
    -- and set_pump under 0x20 return the same settings with the bit of the heater, or of the
    -- pump, set if it is to be enabled, and as it was if it is to be disabled.
    pub switches-words :
        (heater pump : Bool)
        → (set_heater (some (words s)) 6 heater (some out)
            ≡ reply (words (command 0x10 0 (switched 1 heater s))))
          × (set_pump (some (words s)) 6 pump (some out)
              ≡ reply (words (command 0x20 0 (switched 4 pump s))))
    switches-words heater pump = (set_heater-words heater, set_pump-words pump)

-- The three modes that can be chosen.
abbrev is_chosen : HeatpumpMode → Bool
is_chosen HeatpumpMode.eco = true
is_chosen HeatpumpMode.quiet = true
is_chosen HeatpumpMode.turbo = true
is_chosen _ = false

-- For each of the three modes that can be chosen, set_mode returns flag 1 over a value that
-- get_mode reads as that mode.
pub set_mode-get_mode :
    (mode : HeatpumpMode) (o : ℕ)
    → is_chosen mode ≡ true
    → (v : ℕ) × (set_mode mode (some (o ∷ [])) ≡ reply ((0x0100 + v) ∷ []))
      × (get_mode (v ∷ []) 1 ≡ some mode)
unfolding set_mode mode_command store get_mode
set_mode-get_mode HeatpumpMode.eco o h = (0, refl, refl)
set_mode-get_mode HeatpumpMode.quiet o h = (1, refl, refl)
set_mode-get_mode HeatpumpMode.turbo o h = (2, refl, refl)
set_mode-get_mode _ o h = absurd (false≢true h)
