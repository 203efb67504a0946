-- ===== src/Api.antt =====
-- The requests on a session: server/src/api. The player's hash, the limiter's answer and the clock
-- are given; Redis is taken not to fail.
pub mod Requests
pub mod Answers
pub mod Transfers
pub mod Launch
mod Examples
