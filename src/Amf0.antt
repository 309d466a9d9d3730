-- ===== src/Amf0.antt =====
-- amf0/src: the AMF0 encoding of script values.
pub mod Value
pub mod Utf8
pub mod Serialize
pub mod Deserialize
pub mod Format
pub mod RoundTrip
pub mod Total
mod Runs
