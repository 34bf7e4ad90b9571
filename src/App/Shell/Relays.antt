-- ===== src/App/Shell/Relays.antt =====
-- `set_relay`, by the numbers that strtol makes of its arguments.
use haier_controller.Prelude.{
  zero, suc, Bool, ◌==◌, get_elem?, inl, inr, refl, ◌∙◌, Option-cases, ℕ, ◌+◌, ◌*◌, ◌%◌, ◌<◌, ◌≡◌,
  ℤ, pos, true, false, List, [], ◌∷◌, some, arith, if◌then◌else◌, ltb,
}
use haier_controller.Prelude.Int.{is_zero}
use mathlib.Core.Option as Options
use haier_controller.Cmd.Types.{Code}
use haier_controller.App.Relay.{Pin, set_relay_state}
use haier_controller.App.Shell.{cmd_set_relay}

-- The pin `i` once the relay `v` has been switched: the level changes at `v`, and nothing else.
abbrev pub switched : ℕ → Bool → ℕ → Pin → Pin
switched v on i p = if i == v then record p { level = on } else p

set_relay_state-switched :
    (v : ℕ) (on : Bool) (pins : List Pin) (i : ℕ)
    → get_elem? (set_relay_state v on pins) i ≡ Options.map (switched v on i) (get_elem? pins i)
unfolding set_relay_state
set_relay_state-switched v on [] i = refl
set_relay_state-switched zero on (p ∷ ps) zero = refl
set_relay_state-switched (suc v) on (p ∷ ps) zero = ground arith
set_relay_state-switched zero on (p ∷ ps) (suc i) = elim (Option-cases (get_elem? ps i)) [
  | inl e ↦ rw e refl
  | inr (q, e) ↦ rw e (ground arith)
]
set_relay_state-switched (suc v) on (p ∷ ps) (suc i) =
    set_relay_state-switched v on ps i
    ∙ elim (Option-cases (get_elem? ps i)) [ inl e ↦ rw e refl | inr (q, e) ↦ rw e (ground arith) ]

-- If strtol makes of the first argument a number that is v below 256 plus a multiple of 256, then
-- set_relay with two arguments, if v is below 3, leaves the pins such that the one of the relay v
-- has the level that tells whether the second number is not 0, and is an output if it was, and
-- that every other is as it was; and it returns -EINVAL and leaves the pins alone otherwise.
pub cmd_set_relay-wraps :
    (strtol : List ℕ → ℤ) (name which level : List ℕ) (v k : ℕ) (pins : List Pin)
    → strtol which ≡ pos (v + 256 * k)
    → v < 256
    → (after : List Pin) × (cmd_set_relay strtol (name ∷ which ∷ level ∷ []) pins
        ≡ some (if ltb v 3 then (Code.success, after) else (Code.einval, pins)))
      × ((i : ℕ)
          → get_elem? after i
            ≡ Options.map
                (switched v (if is_zero (strtol level) then false else true) i)
                (get_elem? pins i))
unfolding cmd_set_relay
cmd_set_relay-wraps strtol name which level v k pins e small = (
  set_relay_state v (if is_zero (strtol level) then false else true) pins,
  rw (e, wrapped) (ground arith),
  set_relay_state-switched v (if is_zero (strtol level) then false else true) pins,
)
  where
    wrapped : (v + 256 * k) % 256 ≡ v
    wrapped = omega arith
