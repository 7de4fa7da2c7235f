-- ===== src/Command.antt =====
-- cmd/dp: what the command line makes of its arguments.
pub mod DevicePaths
