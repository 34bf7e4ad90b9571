-- ===== src/Driver.antt =====
-- fw/drivers/heatpump/heatpump.c: the driver, over the functions of haier_cmd.c.
pub mod State
pub mod Registers
pub mod Uart
pub mod Fits
pub mod Handshake
pub mod Sniffer
pub mod Write
pub mod Init
pub mod Api
pub mod Device
