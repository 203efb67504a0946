-- ===== src/Moderation.antt =====
-- The moderators' tools of a session: server/src/admin/chatmod/player.rs.
pub mod Press
pub mod Player
pub mod Banned
pub mod Logged
mod Examples
