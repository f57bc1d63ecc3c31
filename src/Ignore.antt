-- ===== src/Ignore.antt =====
-- The ignore patterns of src/ignore.c.
pub mod Translate
pub mod Pattern
pub mod Match
pub mod Specification
pub mod Parse
mod Tests
