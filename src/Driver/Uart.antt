-- ===== src/Driver/Uart.antt =====
-- uart_read_bytes of heatpump.c. What the loop meets in one round is a `Poll`: the byte that
-- uart_poll_in gave, if any, and the uptime before and after. The rounds to come are a list, so a
-- read that the list does not finish is still waiting.
pub mod Laws
pub mod Cut
use haier_controller.Prelude.{
  ℕ, zero, suc, ◌-◌, Bool, true, false, ◌==◌, ltb, if◌then◌else◌, List, [], ◌∷◌, ◌++◌, Option, none,
  some,
}

pub record Poll : Type 0 where
  pub started : ℕ
  pub byte : Option ℕ
  pub checked : ℕ

-- A `k_timeout_t`: K_NO_WAIT, or what k_ticks_to_ms_floor64 makes of its ticks.
pub data Timeout : Type 0 where
  no_wait : Timeout
  within : ℕ → Timeout

-- Zephyr's conversions: the milliseconds that K_MSEC(n) and K_FOREVER come to.
pub record Ticks : Type 0 where
  pub msec : ℕ → ℕ
  pub forever : ℕ

-- The test at the end of a round.
unfoldable pub expired : Timeout → ℕ → ℕ → Bool
expired no_wait start now = true
expired (within limit) start now = ltb limit (now - start)

pub record Read : Type 0 where
  pub complete : Bool
  pub buf : List ℕ
  pub rest : List Poll

-- The bytes still needed and the bytes read, after a round.
unfoldable pub needed : Option ℕ → ℕ → ℕ
needed none n = suc n
needed (some b) n = n

unfoldable pub received : Option ℕ → List ℕ → List ℕ
received none buf = buf
received (some b) buf = buf ++ b ∷ []

-- The loop, with `need` bytes to go.
unfoldable pub read_loop : Timeout → ℕ → ℕ → List ℕ → List Poll → Option Read
read_loop timeout start zero buf polls = some (record { complete = true; buf = buf; rest = polls })
read_loop timeout start (suc n) buf [] = none
read_loop timeout start (suc n) buf (p ∷ polls) =
    let need = needed p.byte n in
    let buf' = received p.byte buf in
    let more = read_loop timeout start need buf' polls in
    if expired timeout start p.checked
    then some (record { complete = need == 0; buf = buf'; rest = polls })
    else more

-- `k_uptime_get` before the first round.
unfoldable pub start_time : List Poll → ℕ
start_time [] = 0
start_time (p ∷ polls) = p.started

unfoldable pub uart_read_bytes : ℕ → Timeout → List Poll → Option Read
uart_read_bytes len timeout polls = read_loop timeout (start_time polls) len [] polls
