-- ===== src/Store.antt =====
-- src/db/queries.js over src/db/schema.sql: the qsos table and the statements on it.
pub mod Columns
pub mod Qsos
pub mod Valid
pub mod Preserved
pub mod Reads
pub mod Writes
pub mod Deletes
