-- ===== src/App/Rom.antt =====
-- read_id of fw/src/rom.c: the 1-Wire device's answer to W1_CMD_READ_ROM, or what the structure held
-- before, if the device is not ready or not there.
use haier_controller.Prelude.{ℤ, pos, Bool, not, ◌||◌, if◌then◌else◌}
use haier_controller.Prelude.Int.{ltb_ℤ}

pub read_id : {Rom : Type 0} → Bool → ℤ → Rom → Rom → Rom
read_id ready err block old = if not ready || ltb_ℤ err (pos 0) then old else block
