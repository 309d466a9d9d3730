-- ===== src/Float.antt =====
-- The floating point numbers of the code, by their IEEE 754 bit patterns.
pub mod Defs
pub mod Laws
