-- ===== src/Tests.antt =====
-- Concrete runs of the models, and each theorem applied to one.
pub mod Devices
pub mod Texts
pub mod Clients
pub mod Files
pub mod Registrations
pub mod Servers
pub mod Commands
