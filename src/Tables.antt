-- ===== src/Tables.antt =====
-- The statements of src/db/queries.js on the tables beside qsos.
pub mod Radios
pub mod Scores
pub mod Newest
pub mod Cache
pub mod Archive
pub mod Rate
