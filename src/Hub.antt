-- ===== src/Hub.antt =====
-- `SignalHub` of server/src/signaling/mod.rs: the rooms of connected players, their scores, the
-- ready barrier, the pause holds and the grace timers. Each method holds the lock of the map that
-- it uses, so it is one step, except `arm_grace`, which takes two locks one after the other.
-- A channel is the number of its connection; whether its receiver still exists is an argument.
pub mod Data
pub mod Rooms
pub mod Scores
pub mod Barrier
pub mod Pause
pub mod Grace
mod Examples
