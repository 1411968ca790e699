-- ===== src/Lookup.antt =====
-- src/lookup/index.js: the live callsign lookup. `Suffix` is stripSuffix; `Service` the queue that
-- createLookupService closes over; the other modules say what the queue guarantees.
pub mod Suffix
pub mod Config
pub mod Service
pub mod Pending
pub mod Consistent
pub mod Reach
pub mod Pause
pub mod Backoff
pub mod Base
pub mod Order
pub mod Prime
