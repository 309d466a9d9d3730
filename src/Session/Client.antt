-- ===== src/Session/Client.antt =====
-- rtmp/src/sessions/client: the client side of a connection.
pub mod Types
pub mod Send
pub mod Requests
pub mod Publishing
pub mod Media
pub mod Commands
pub mod Input
pub mod Keep
pub mod Reach
