-- ===== src/Chunk.antt =====
-- rtmp/src/chunk_io: messages cut into chunks with compressed headers, and put together again.
pub mod Header
pub mod Serializer
pub mod Deserializer
pub mod Slices
pub mod Total
pub mod RoundTrip
mod Runs
