-- ===== src/App/Relay.antt =====
-- The three relays of fw/src/relay.c. What Zephyr's GPIO calls answer is an argument.
use haier_controller.Prelude.{
  ℕ, ℤ, pos, Bool, true, false, not, ◌||◌, if◌then◌else◌, List, [], ◌∷◌, zero, suc,
}
use haier_controller.Prelude.Int.{ltb_ℤ}

-- `RELAY_COUNT`
abbrev pub relay_count : ℕ
relay_count = 3

-- A relay's pin: whether relay_init made it an output, and its level.
pub record Pin : Type 0 where
  pub output : Bool
  pub level : Bool

-- Whether the pin's device is ready, and what gpio_pin_configure_dt returns.
pub record Gpio : Type 0 where
  pub ready : Bool
  pub err : ℤ

-- A round of relay_init: an error leaves the pin as it is, and the loop goes on.
pub configure : Gpio → Pin → Pin
configure g p =
    if not g.ready || ltb_ℤ g.err (pos 0) then p else record { output = true; level = false }

pub relay_init : List Gpio → List Pin → List Pin
relay_init (g ∷ gs) (p ∷ ps) = configure g p ∷ relay_init gs ps
relay_init _ ps = ps

-- gpio_pin_set_dt on `&relays[relay]`, which sets a level and does not configure the pin.
unfoldable pub set_relay_state : ℕ → Bool → List Pin → List Pin
set_relay_state relay enable [] = []
set_relay_state zero enable (p ∷ ps) = record p { level = enable } ∷ ps
set_relay_state (suc relay) enable (p ∷ ps) = p ∷ set_relay_state relay enable ps
