-- ===== src/App.antt =====
-- fw/src: the application over the driver.
pub mod Status
pub mod Mqtt
pub mod Relay
pub mod Shell
pub mod Wifi
pub mod Rom
pub mod Main
pub mod Boot
