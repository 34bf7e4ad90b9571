-- ===== src/Lib.antt =====
-- The firmware of a controller for Haier heat pumps (fw/). The heat pump reports its state in four
-- blocks of Modbus registers, from 101, 141, 201 and 241 on, which its own remote control polls; the
-- firmware listens on that line, keeps the last value of each block, decodes it for the shell and for
-- MQTT, and writes commands to the line between two rounds of reports.
--
-- The parts, and the modules that model them:
--
-- Cmd models fw/drivers/heatpump/haier_cmd.c and its structures. Cmd/R101, R141, R201 and R241 hold
-- the getters over each block, under their C names; Cmd/Set holds the setters, which put together
-- the registers of a command. Cmd/Bytes holds the expressions by which the getters take registers
-- apart. An array is a list; a pointer to a result is an option, `none` for NULL; the outer option
-- of a `Reply` is `none` where C leaves the behaviour undefined, such as a read outside an array or
-- a cast out of range. The modules called Frame describe each block independently of the code: what
-- the heat pump says, as a record, and the words in which it travels.
--
-- Driver models fw/drivers/heatpump/heatpump.c. Driver/Uart is uart_read_bytes: what its loop meets
-- in one round is a `Poll`, the byte that the UART gave, if any, and the uptime before and after.
-- Driver/Registers is parse_registers, Driver/Sniffer one turn of the sniffer's loop: `receive` is
-- what it does with the line, `deliver` the section under the mutex, `sniff` the whole; `turns` in
-- Driver/Sniffer/Rounds is the loop for a number of turns without a write under way. Driver/Write is
-- write_pump as the list of its actions on the semaphore, the flags, the enable pin and the bus, and
-- Driver/Write/Performed a setter of the driver with its call of write_pump. Driver/Handshake is two
-- callers of write_pump beside the sniffer, as a step relation: a position of each thread stands
-- between two accesses to what they share, and the steps interleave in any order, but for the sleep
-- of 300 ms of the sniffer, which is taken to outlast a caller's way to its next wait;
-- Driver/Handshake/Labels names what a caller does in each step, and how that changes what they
-- share. Driver/Init is heatpump_init.
-- Driver/Api holds the readers and the setters of the driver's interface, set_pump_ch_temp and so
-- on; a setter gives a `Plan`, its result and its call of write_pump. Driver/Device is the table of
-- these functions, by which the shell calls them, and Driver/State the structures, both of
-- fw/inc/haierctrl/drivers/heatpump.h.
--
-- App/Status models get_status of fw/src/main.c and read_temp of fw/src/temp.c, App/Boot main up to
-- its loop, and App/Main a round of the loop. App/Mqtt models how fw/src/mqtt.c takes a command from
-- a message: on_publish is the case MQTT_EVT_PUBLISH of its handler, dispatch_cmd the search for the
-- command, handle the four handlers; App/Mqtt/Rounds puts a command behind the turns of the sniffer.
-- App/Mqtt/Client is the connection: handler, mqtt_init, publish_msg, and rounds of mqtt_thread,
-- with the calls of the library in a log; App/Mqtt/Threads is mqtt_thread beside main, as a step
-- relation over the client that they share; App/Mqtt/Encode is the CBOR payload of publish_status.
-- App/Shell models fw/src/shell.c, with the tables of its commands in App/Shell/Tree; App/Wifi the
-- events and waits of fw/src/wifi.c, App/Wifi/Callbacks its wifi_init, and App/Wifi/Report what it
-- prints; App/Relay and App/Rom the files of these names.
--
-- The parts meet as in the code: sniff calls receive, which calls uart_read_bytes, and deliver,
-- which calls parse_registers; the readers and setters of Driver/Api call the functions of Cmd over
-- the registers that the sniffer filled; get_status and the handlers call Driver/Api.
--
-- Floats holds the parameter for the compiler's `float`: its operations, with the one law about
-- rounding that the temperature guard relies on. Floats/Exact gives fractions as one value of it.
-- Zephyr's clock, UART, semaphores and Modbus client, the MQTT library, strtof and strtol appear
-- only by their answers, which are arguments; so do the GPIO and the network. zcbor is a record of its
-- calls, with what CBOR takes as its law, and the shell's search of a table is an argument. Examples
-- applies the theorems to concrete data.
--
-- There is no fuel in the loops: that of uart_read_bytes is recursion on the list of the rounds to
-- come, and where the list ends before the loop does, the call still waits; that of mqtt_init counts
-- its 50 rounds; the others are recursion on a count or on a list. mqtt_init can come to call itself,
-- by an event that it handles: `connect` bounds the depth of these calls, and the theorem about all
-- runs holds at every depth. A machine integer keeps its width: u8, u16 and their signed forms are in
-- Prelude/Words and Prelude/Int; values of `int` stay far inside its range.
--
-- Not modelled: the setup of Zephyr's devices, threads and MQTT client structure, the LED, and the
-- form in which numbers, texts and logs are printed, which only call Zephyr; time, but for what the
-- UART's reads are given and for the sleep named above. In App/Mqtt/Client, rounds of mqtt_thread
-- and publications of the status do not interleave inside one another; in App/Mqtt/Threads they do,
-- the answers to commands included.
mod Prelude
pub mod Floats
pub mod Cmd
pub mod Driver
pub mod App
mod Examples
