-- ===== src/Settings.antt =====
-- The match settings that a host chooses: shared/src/types/win_condition.rs, spawn_settings.rs,
-- loot_settings.rs and gamemode.rs, with the bounds of server/src/gamemode.rs. A `u8` is a number;
-- where the code adds in `u16` the wrap-around is written out.
pub mod Mode
pub mod Range
pub mod Win
pub mod Spawn
pub mod Loot
mod Examples
