-- ===== src/Session/Server/Keep.antt =====
-- What the parts of a server session leave alone.
pub mod Sends
pub mod Allows
pub mod Handlers
pub mod Commands
pub mod Input
pub mod Answers
pub mod Outbound
