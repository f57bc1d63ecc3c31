-- ===== src/EstOps.antt =====
-- src/est_ops.c: the operations on entries (`struct estat`), each with its theorems.
pub mod FreeList
pub mod Changes
pub mod Correlate
pub mod Directory
pub mod Selection
pub mod Line
pub mod Paths
mod Tests
