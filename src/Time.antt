-- ===== src/Time.antt =====
-- rtmp/src/time.rs: 32-bit millisecond timestamps that wrap around.
mod Defs
pub mod Laws
mod Runs
unfoldable pub use Defs.*
