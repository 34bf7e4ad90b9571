-- ===== src/App/Mqtt.antt =====
-- The commands that fw/src/mqtt.c takes from the topic heatpump/cmd.
pub mod Laws
pub mod Sends
pub mod Rounds
pub mod Client
pub mod Threads
pub mod Encode
use haier_controller.Prelude.{
  ℕ, zero, suc, ℤ, pos, Bool, true, false, ◌&&◌, ◌==◌, leb, if◌then◌else◌, List, [], ◌∷◌, ◌++◌,
  Option, none, some, length, set,
}
use haier_controller.Prelude.Int.{ltb_ℤ}
use haier_controller.Floats.{Floats}
use haier_controller.Cmd.Types.{◌>>=◌}
use haier_controller.Driver.State.{Regs}
use haier_controller.Driver.Api.{
  Plan, set_pump_ch_temp, set_pump_dhw_temp, set_pump_mode, set_pump_state,
}

-- `sizeof(rx_buf)`
abbrev pub rx_size : ℕ
rx_size = 128

pub data Handler : Type 0 where
  cmd_ch cmd_dhw cmd_state cmd_mode : Handler

-- `cmd_list`, the names as bytes.
abbrev pub cmd_list : List (List ℕ × Handler)
cmd_list =
    (b'c' ∷ b'h' ∷ [], cmd_ch)
    ∷ (b'd' ∷ b'h' ∷ b'w' ∷ [], cmd_dhw)
    ∷ (b's' ∷ b't' ∷ b'a' ∷ b't' ∷ b'e' ∷ [], cmd_state)
    ∷ (b'm' ∷ b'o' ∷ b'd' ∷ b'e' ∷ [], cmd_mode)
    ∷ []

-- The C string at the start of a buffer; `none` if no NUL ends it inside the buffer.
unfoldable pub c_string : List ℕ → Option (List ℕ)
c_string [] = none
c_string (c ∷ cs) = if c == 0 then some [] else prepend c (c_string cs)
  where
    prepend : ℕ → Option (List ℕ) → Option (List ℕ)
    prepend x none = none
    prepend x (some xs) = some (x ∷ xs)

-- `while(*ptr != ' ') ptr++`, which no NUL stops: what stands before the space, and behind it.
-- `none` is a read behind the buffer.
pub split_at_space : List ℕ → Option (List ℕ × List ℕ)
split_at_space [] = none
split_at_space (c ∷ cs) = if c == b' ' then some ([], cs) else before c (split_at_space cs)
  where
    before : ℕ → Option (List ℕ × List ℕ) → Option (List ℕ × List ℕ)
    before x none = none
    before x (some (name, rest)) = some (x ∷ name, rest)

-- `!strcmp(a, b)` of two C strings.
pub same_text : List ℕ → List ℕ → Bool
same_text [] [] = true
same_text (a ∷ as_) (b ∷ bs) = a == b && same_text as_ bs
same_text _ _ = false

-- The loop over `cmd_list`.
pub find_handler : List ℕ → List (List ℕ × Handler) → Option Handler
find_handler name [] = none
find_handler name ((n, h) ∷ rest) = if same_text name n then some h else find_handler name rest

-- A handler and the text it is called with.
pub record Call : Type 0 where
  pub handler : Handler
  pub arg : List ℕ

-- dispatch_cmd up to the call of the handler, over the whole buffer. The outer `none` is undefined;
-- the inner one is a name that is not in the list. The space is overwritten by a NUL, so the name
-- is the C string that starts the buffer.
pub dispatch_cmd : List ℕ → Option (Option Call)
dispatch_cmd buf = do
  (before, behind) ← split_at_space buf
  name ← c_string (before ++ 0 ∷ [])
  called behind (find_handler name cmd_list)
  where
    called : List ℕ → Option Handler → Option (Option Call)
    called behind none = some none
    called behind (some h) = do
      arg ← c_string behind
      some (some (record { handler = h; arg = arg }))

-- The case MQTT_EVT_PUBLISH of `handler`: the length that the event announces, the answer of
-- mqtt_read_publish_payload, and the buffer as that call left it.
pub on_publish : ℕ → ℤ → List ℕ → Option (Option Call)
on_publish len answer buf =
    if leb rx_size len
    then some none
    else (if ltb_ℤ answer (pos 0) then some none else dispatch_cmd (set buf len 0))

-- strtof and strtol, of the C library: the number at the start of a text.
pub record Numbers (F : Floats) : Type 0 where
  pub strtof : List ℕ → F.Float
  pub strtol : List ℕ → ℤ

-- The four handlers; `regs` is the array that the setter has on its stack.
unfoldable pub handle : (F : Floats) → Numbers F → Regs → List ℕ → Call → Option Plan
handle F n r regs c = run c.handler
  where
    run : Handler → Option Plan
    run cmd_ch = set_pump_ch_temp F r (n.strtof c.arg) regs
    run cmd_dhw = set_pump_dhw_temp F r (n.strtof c.arg) regs
    run cmd_state = set_pump_state r (n.strtol c.arg) regs
    run cmd_mode = set_pump_mode (n.strtol c.arg) regs
