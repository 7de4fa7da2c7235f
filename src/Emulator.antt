-- ===== src/Emulator.antt =====
-- dptest/emulator.go: the simulator's HTTP handler over the device state.
pub mod Listing
pub mod Auth
pub mod Requests
pub mod Handlers
pub mod Server
