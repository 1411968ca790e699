-- ===== src/Solar.antt =====
-- Space weather: the solar_snapshots statements of src/db/queries.js and the service of
-- src/solar/index.js. A time is a number of seconds, in the order of the texts that the tables hold.
pub mod Readings
pub mod Service
pub mod Sorting
pub mod Session
pub mod Replica
