-- ===== src/Socket.antt =====
-- The WebSocket side of a session: server/src/signaling/ws. One socket's calls on the hub, the store
-- and the other sockets, composed as the handlers compose them.
pub mod World
pub mod Ops
pub mod Identify
pub mod Arrival
pub mod Returns
pub mod Cleanup
pub mod Frame
pub mod Confined
pub mod Steps
pub mod Drops
pub mod Framed
pub mod Spoken
pub mod Said
pub mod Logged
pub mod Recorded
pub mod Scene
mod Examples
