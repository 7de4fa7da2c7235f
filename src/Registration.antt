-- ===== src/Registration.antt =====
-- internal/wire/registration: the client's registration protocol.
pub mod Padding
pub mod Wrapping
pub mod Exchange
pub mod Keys
pub mod Messages
pub mod Session
pub mod Laws
pub mod Client
pub mod Transcript
pub mod Emulator
pub mod Delivery
