-- ===== src/Examples.antt =====
-- Runs of the code, and of its theorems, on concrete data: a heat pump at work, its frames on the
-- line, and messages from the topic of commands.
mod Data
mod Readings
mod Commands
mod Line
mod Topics
mod Rounds
mod Messages
mod Handshake
mod Client
mod Threads
mod Shell
mod Wifi
