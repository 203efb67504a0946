-- ===== src/Chat.antt =====
-- The chat moderation's identifiers: server/src/chat.
pub mod Ids
pub mod Bans
pub mod Transcript
pub mod Audit
pub mod Blacklist
pub mod Capture
mod Examples
