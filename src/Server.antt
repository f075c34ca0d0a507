-- ===== src/Server.antt =====
-- server/src/server.c: the registry of operators, the handler of one request, and the loop that
-- sends a response.
pub mod Operators
pub mod Dispatch
pub mod Resources
pub mod Sending
pub mod Connection
pub mod Start
pub mod Calls
pub mod Sharing
