-- ===== src/Bytes.antt =====
-- Byte strings, the cursor that the readers move along, and the fixed-width integers of the
-- `byteorder` crate, with a concrete instance.
mod Defs
pub mod Endian
unfoldable pub use Defs.*
