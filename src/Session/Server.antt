-- ===== src/Session/Server.antt =====
-- rtmp/src/sessions/server: the server side of a connection.
pub mod Types
pub mod Send
pub mod Streams
pub mod Commands
pub mod Media
pub mod Requests
pub mod Outbound
pub mod Input
pub mod Keep
pub mod Invariant
pub mod Safety
pub mod Answers
pub mod Reach
pub mod Consent
pub mod Publishing
pub mod Panics
pub mod Window
mod Runs
