-- ===== src/Message.antt =====
-- rtmp/src/messages: typed messages and the payloads that carry them.
pub mod Payload
pub mod Types
pub mod Serialize
pub mod Deserialize
pub mod Kinds
pub mod RoundTrip
pub mod Total
mod Runs
