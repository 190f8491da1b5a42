-- ===== src/Store.antt =====
-- The generation store (src/sombreado/store): the tables, the statements, and the lifecycle of a
-- dataset generation.
pub mod Errors
pub mod Schema
pub mod Tx
pub mod Hoare
pub mod Delete
pub mod Geometry
pub mod Writes
pub mod Validate
pub mod Lifecycle
pub mod Lease
pub mod Runs
pub mod Discovery
pub mod Reach
pub mod Backup
pub mod Editions
mod Tests
