-- ===== src/Players.antt =====
-- The registry of players: server/src/api/register.rs, api/me.rs and the writes of admin/users.rs. A
-- player's number is counted up, or taken from the pool of numbers whose players were deleted.
pub mod Numbers
pub mod Accounts
pub mod Pool
pub mod Registered
pub mod Issued
pub mod Spare
pub mod Stages
pub mod Orderly
pub mod Shared
mod Examples
