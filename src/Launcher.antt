-- ===== src/Launcher.antt =====
-- The launcher.
pub mod RateLimit
pub mod Changelog
mod Examples
