-- ===== src/Server.antt =====
-- The server's operations on the chat and the sockets, as the steps of one history.
pub mod Evidence
mod Examples
