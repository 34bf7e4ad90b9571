-- ===== src/Cmd.antt =====
-- fw/drivers/heatpump/haier_cmd.c: the reading and the writing of the register blocks.
pub mod Types
pub mod Bytes
pub mod Fields
pub mod R101
pub mod R141
pub mod R201
pub mod R241
pub mod Safe
pub mod Set
