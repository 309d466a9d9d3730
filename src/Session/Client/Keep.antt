-- ===== src/Session/Client/Keep.antt =====
-- A relation that the changes of a client session's state respect, one at a time, is respected by
-- what the session does.
pub mod Sends
pub mod Requests
pub mod Handlers
pub mod Commands
pub mod Input
