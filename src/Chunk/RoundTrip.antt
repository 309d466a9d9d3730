-- ===== src/Chunk/RoundTrip.antt =====
-- What the serializer of chunk_io writes, the deserializer reads.
pub mod Stages
pub mod Basic
pub mod Headers
pub mod Chunks
pub mod Sync
pub mod Progress
pub mod Deliver
pub mod Messages
pub mod Loss
pub mod Stream
pub mod Resize
