-- ===== src/App/Shell/Tree.antt =====
-- The commands that fw/src/shell.c registers: `hp` with its two tables of subcommands, `read_id` and
-- `read_temp`.
use haier_controller.Prelude.{ℕ, ℤ, ◌≡◌, refl, Bool, List, [], ◌∷◌, Option, none, some, get_elem?}
use haier_controller.Floats.{Floats}
use haier_controller.Cmd.Types.{Code, ◌>>=◌, HeatpumpMode}
use haier_controller.Cmd.R101.Frame.{Settings, IsSettings, words as words101}
use haier_controller.Cmd.R141.Frame.{Frame, IsFrame, words as words141}
use haier_controller.Driver.State.{Regs}
use haier_controller.Driver.Api.{Plan}
use haier_controller.Driver.Device.{DriverApi, heatpump_api}
use haier_controller.App.Mqtt.{Numbers}
use haier_controller.App.Rom.{read_id}
use haier_controller.App.Status.{Locals, read_temp}
use haier_controller.Cmd.R201.Frame.{IsMode}
use haier_controller.App.Shell.{
  GetCommand, ch, dhw, mode, tank, heat, threeway, ch_target, dhw_target, Search, val_float, Shown,
  hp_set, hp_get,
}
use haier_controller.App.Shell.Agrees.{FindsAll}
use haier_controller.App.Shell.Shows.{asked, hp_get-asked}

-- The names of the subcommands of `hp get`, as bytes.
abbrev pub get_name : GetCommand → List ℕ
get_name ch = b'c' ∷ b'h' ∷ []
get_name dhw = b'd' ∷ b'h' ∷ b'w' ∷ []
get_name mode = b'm' ∷ b'o' ∷ b'd' ∷ b'e' ∷ []
get_name tank = b't' ∷ b'a' ∷ b'n' ∷ b'k' ∷ []
get_name heat = b'h' ∷ b'e' ∷ b'a' ∷ b't' ∷ []
get_name threeway = b't' ∷ b'h' ∷ b'r' ∷ b'e' ∷ b'e' ∷ b'w' ∷ b'a' ∷ b'y' ∷ []
get_name ch_target = b'c' ∷ b'h' ∷ b'_' ∷ b't' ∷ b'a' ∷ b'r' ∷ b'g' ∷ b'e' ∷ b't' ∷ []
get_name dhw_target = b'd' ∷ b'h' ∷ b'w' ∷ b'_' ∷ b't' ∷ b'a' ∷ b'r' ∷ b'g' ∷ b'e' ∷ b't' ∷ []

abbrev entry : GetCommand → List ℕ × GetCommand
entry c = (get_name c, c)

abbrev pub sub_heatpump_get : List (List ℕ × GetCommand)
sub_heatpump_get =
    entry ch
    ∷ entry dhw
    ∷ entry mode
    ∷ entry tank
    ∷ entry heat
    ∷ entry threeway
    ∷ entry ch_target
    ∷ entry dhw_target
    ∷ []

-- The two subcommands of `hp`.
pub data HpCommand : Type 0 where
  get set : HpCommand

abbrev pub hp_name : HpCommand → List ℕ
hp_name get = b'g' ∷ b'e' ∷ b't' ∷ []
hp_name set = b's' ∷ b'e' ∷ b't' ∷ []

abbrev pub sub_heatpump : List (List ℕ × HpCommand)
sub_heatpump = (hp_name get, get) ∷ (hp_name set, set) ∷ []

-- Zephyr's search, in each of the three tables.
pub record Searches : Type 0 where
  pub in_set : Search
  pub in_get : List ℕ → List (List ℕ × GetCommand) → Option GetCommand
  pub in_hp : List ℕ → List (List ℕ × HpCommand) → Option HpCommand

-- It finds each subcommand under its name.
pub record Complete (z : Searches) : Type 0 where
  pub sets : FindsAll z.in_set
  pub gets : (c : GetCommand) → z.in_get (get_name c) sub_heatpump_get ≡ some c
  pub hps : (c : HpCommand) → z.in_hp (hp_name c) sub_heatpump ≡ some c

-- What a command of `hp` came to: a call of the driver, or a line.
pub data Ran (Float : Type 0) : Type 0 where
  called : Plan → Ran Float
  printed : Shown Float → Ran Float

module _ {F : Floats} (api : DriverApi F) (n : Numbers F) (r : Regs) (z : Searches)
    (locals : Locals F) where
  abbrev ran_set : Option Plan → Option (Ran F.Float)
  ran_set none = none
  ran_set (some p) = some (called p)

  abbrev ran_get : Option GetCommand → Option (Option (Ran F.Float))
  ran_get none = some none
  ran_get (some c) = do s ← hp_get api r locals c; some (some (printed s))

  abbrev ran : List ℕ → List (List ℕ) → Option HpCommand → Option (Option (Ran F.Float))
  ran regs argv none = some none
  ran regs argv (some set) = do p ← hp_set api n r z.in_set regs argv; some (ran_set p)
  ran regs argv (some get) = do name ← get_elem? argv 0; ran_get (z.in_get name sub_heatpump_get)

  -- `hp …`, with the words behind `hp`; the inner `none` is a name that is not found.
  pub hp : List ℕ → List (List ℕ) → Option (Option (Ran F.Float))
  hp regs [] = none
  hp regs (name ∷ argv) = ran regs argv (z.in_hp name sub_heatpump)

-- `read_id`: the structure, and the result, which does not tell whether there was a device.
pub cmd_read_id : {Rom : Type 0} → Bool → ℤ → Rom → Rom → Rom × Code
cmd_read_id ready err block old = (read_id ready err block old, Code.success)

-- `read_temp`, which prints a double.
pub cmd_read_temp : {Double : Type 0} → Double → ℤ → Double → Shown Double
cmd_read_temp zero_value fetched value = record {
  code = Code.success;
  line = val_float (read_temp zero_value fetched value);
}

module _ (F : Floats) (s : Settings) (f : Frame) (m : HeatpumpMode) where
  -- If the registers hold the words of settings and of a frame that fit their bits, register 201
  -- holds a value by which it means a mode, and the shell's search finds each subcommand under
  -- its name, then `hp` with the words `get` and the name of one of the eight subcommands returns
  -- 0 and prints the quantity that the heat pump reported.
  pub hp-asked :
      (n : Numbers F) (z : Searches) (r : Regs) (regs : List ℕ) (v : ℕ) (locals : Locals F)
      (c : GetCommand)
      → Complete z
      → IsSettings s
      → IsFrame f
      → r.r101 ≡ words101 s
      → r.r141 ≡ words141 f
      → r.r201 ≡ v ∷ []
      → IsMode v m
      → hp (heatpump_api F) n r z locals regs (hp_name get ∷ get_name c ∷ [])
        ≡ some (some (printed (record { code = Code.success; line = asked F s f m c })))
  unfolding hp
  hp-asked n z r regs v locals c all s_ok f_ok e101 e141 e201 e =
      rw (all.hps get, all.gets c, hp_get-asked F s f m r v locals c s_ok f_ok e101 e141 e201 e)
        refl
