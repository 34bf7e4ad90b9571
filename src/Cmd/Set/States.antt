-- ===== src/Cmd/Set/States.antt =====
-- set_state over the words of settings: requests that change the state, and repeated ones.
use haier_controller.Prelude.{
  ℕ, ◌+◌, ◌-◌, ◌*◌, ◌≡◌, refl, List, some, Bool, true, false, not, arith, length, bit_and, bit_or,
  u8, ◌==◌, if◌then◌else◌,
}
use haier_controller.Prelude.Bits.{
  bit_and_0x0f, bit_and_0xff, bit_or_disjoint, has_bit, has_bit-digit,
}
use haier_controller.Cmd.Types.{reply, HeatpumpState, HeatpumpStatus}
use haier_controller.Cmd.R101.{get_state}
use haier_controller.Cmd.R101.Frame.{Settings, IsSettings, words, status_byte}
use haier_controller.Cmd.Set.{state_command, set_state}
use haier_controller.Cmd.Set.Words.{command, store6_lem, low_part, status_byte-lt}

-- `on`, with the given bits for cooling, heating and the tank, and no other bit of the status byte.
abbrev preset : Bool → Bool → Bool → Settings → Settings
preset cool heat tank s = record s {
  is_on = true;
  cooling = cool;
  heating = heat;
  has_tank = tank;
  spare = λ i. if i == 0 then 0 else s.spare i;
}

abbrev pub requested : HeatpumpState → Settings → Settings
requested HeatpumpState.on s = record s { is_on = true }
requested HeatpumpState.off s = record s { is_on = false }
requested HeatpumpState.cooling s = preset true false false s
requested HeatpumpState.heating s = preset false true false s
requested HeatpumpState.dhw s = preset true true true s
requested HeatpumpState.cool_dhw s = preset true false true s
requested HeatpumpState.heat_dhw s = preset false true true s
requested HeatpumpState.invalid s = s

-- `on` and `off` are commanded under flag 1, the presets under flag 0x86.
abbrev pub flag_of : HeatpumpState → ℕ
flag_of HeatpumpState.on = 1
flag_of HeatpumpState.off = 1
flag_of _ = 0x86

-- A request that changes the state: `on` asked of a heat pump that is off, or `off` of one that is on.
abbrev pub IsChange : HeatpumpState → Settings → Type 0
IsChange HeatpumpState.on s = s.is_on ≡ false
IsChange HeatpumpState.off s = s.is_on ≡ true
IsChange HeatpumpState.invalid s = ⊥
IsChange _ s = Unit

-- A request for the state that the heat pump is in already.
abbrev IsRepeat : HeatpumpState → Settings → Type 0
IsRepeat HeatpumpState.on s = s.is_on ≡ true
IsRepeat HeatpumpState.off s = s.is_on ≡ false
IsRepeat _ s = ⊥

-- The block `sent` reads as a heat pump whose power is `power`.
abbrev pub Sends : List ℕ → Bool → Type 0
Sends sent power =
    (old : HeatpumpStatus)
    → (st : HeatpumpStatus) × (get_state sent 6 (some old) ≡ reply st) × (st.is_on ≡ power)

module _ (s : Settings) (ok : IsSettings s) where
  low_status : bit_and (s.spare 1 * 256 + status_byte s) 0xff ≡ status_byte s
  low_status = low_part (s.spare 1) (status_byte s) (status_byte-lt s ok.middle)

  turn_on :
      s.is_on ≡ false
      → bit_or 0x0100 (u8 (bit_and (s.spare 1 * 256 + status_byte s) 0xff + 1))
        ≡ 256 + status_byte (requested HeatpumpState.on s)
  turn_on h =
      let x = u8 (bit_and (s.spare 1 * 256 + status_byte s) 0xff + 1) in
      ground (arith, low_status, status_byte-lt s ok.middle, bit_or_disjoint 8 1 x)

  turn_off :
      s.is_on ≡ true
      → bit_or 0x0100 (u8 (bit_and (s.spare 1 * 256 + status_byte s) 0xff + 256 - 1))
        ≡ 256 + status_byte (requested HeatpumpState.off s)
  turn_off h =
      let x = u8 (bit_and (s.spare 1 * 256 + status_byte s) 0xff + 256 - 1) in
      ground (arith, low_status, status_byte-lt s ok.middle, bit_or_disjoint 8 1 x)

  on_word : ℕ
  on_word = bit_or 0x0100 (u8 (bit_and (s.spare 1 * 256 + status_byte s) 0xff + 1))

  off_word : ℕ
  off_word = bit_or 0x0100 (u8 (bit_and (s.spare 1 * 256 + status_byte s) 0xff + 256 - 1))

  on_word-bit : s.is_on ≡ true → has_bit on_word 0 ≡ false
  unfolding on_word
  on_word-bit h =
      let x = u8 (bit_and (s.spare 1 * 256 + status_byte s) 0xff + 1) in
      ground (arith, low_status, bit_or_disjoint 8 1 x, has_bit-digit 0 (bit_or 0x0100 x))

  off_word-bit : s.is_on ≡ false → has_bit off_word 0 ≡ true
  unfolding off_word
  off_word-bit h =
      let x = u8 (bit_and (s.spare 1 * 256 + status_byte s) 0xff + 256 - 1) in
      ground (arith, low_status, bit_or_disjoint 8 1 x, has_bit-digit 0 (bit_or 0x0100 x))

  module _ (out : List ℕ) (six : length out ≡ 6) where
    pub set_state-words :
        (target : HeatpumpState)
        → IsChange target s
        → set_state (some (words s)) 6 target (some out)
          ≡ reply (words (command (flag_of target) 0 (requested target s)))
    unfolding set_state state_command
    set_state-words HeatpumpState.on h =
        rw
          (
            store6_lem out _ _ _ _ _ _ six,
            turn_on h,
            bit_and_0x0f (s.spare 3),
            bit_and_0xff (s.spare 4),
          )
          (ground arith)
    set_state-words HeatpumpState.off h =
        rw
          (
            store6_lem out _ _ _ _ _ _ six,
            turn_off h,
            bit_and_0x0f (s.spare 3),
            bit_and_0xff (s.spare 4),
          )
          (ground arith)
    set_state-words HeatpumpState.invalid h = absurd h
    set_state-words target h =
        rw (store6_lem out _ _ _ _ _ _ six, bit_and_0x0f (s.spare 3), bit_and_0xff (s.spare 4))
          (ground arith)

    -- For the words of settings that fit and an array of six, a request for `on` while the heat
    -- pump is on, or for `off` while it is off, returns success with registers that get_state
    -- reads as the opposite power.
    pub set_state_again :
        (target : HeatpumpState)
        → IsRepeat target s
        → (sent : List ℕ) × (set_state (some (words s)) 6 target (some out) ≡ reply sent)
          × Sends sent (not s.is_on)
    unfolding set_state state_command on_word off_word get_state
    set_state_again HeatpumpState.on h =
        (_, store6_lem out _ _ _ _ _ _ six, λ old. (_, refl, rw (on_word-bit h, h)))
    set_state_again HeatpumpState.off h =
        (_, store6_lem out _ _ _ _ _ _ six, λ old. (_, refl, rw (off_word-bit h, h)))
    set_state_again HeatpumpState.cooling h = absurd h
    set_state_again HeatpumpState.heating h = absurd h
    set_state_again HeatpumpState.dhw h = absurd h
    set_state_again HeatpumpState.cool_dhw h = absurd h
    set_state_again HeatpumpState.heat_dhw h = absurd h
    set_state_again HeatpumpState.invalid h = absurd h
