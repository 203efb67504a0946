-- ===== src/Session.antt =====
-- The session record, its Redis store, and the Lua scripts that change it: server/src/api/mod.rs,
-- api/host.rs, join.rs, start.rs, session.rs and signaling/ws/session_ops.rs.
pub mod Data
pub mod Store
pub mod Lobby
pub mod Live
pub mod Rosters
pub mod Valid
pub mod Changes
pub mod Keeps
pub mod Steps
pub mod Seats
pub mod Promotion
pub mod Host
pub mod Hosting
pub mod Start
pub mod StartSeats
mod Examples
