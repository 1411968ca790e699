-- ===== src/Analyze/Adif.antt =====
-- The reader of ADIF files: src/analyze/adif.js. Tags is the scan of a record for its fields, Records
-- the loop over the records.
pub mod Tags
pub mod Values
pub mod Records
pub mod RoundTrip
pub mod Operators
