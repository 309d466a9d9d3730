-- ===== src/Session.antt =====
-- rtmp/src/sessions: the two ends of a connection above the chunk streams.
pub mod Action
pub mod Keeps
pub mod Metadata
pub mod Server
pub mod Client
pub mod Relay
mod Traffic
mod Runs
