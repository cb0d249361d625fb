-- ===== src/Update.antt =====
-- internal/update: the release check.
pub mod Version
pub mod Compare
pub mod Schedule
pub mod Checker
pub mod Http
