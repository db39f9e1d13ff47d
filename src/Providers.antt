-- ===== src/Providers.antt =====
-- src/providers.rs: the loggers.
pub mod Loggers
