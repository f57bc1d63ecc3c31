-- ===== src/Checksum.antt =====
-- The checksums of src/checksum.c.
pub mod Manber
pub mod Hex
mod Tests
