-- ===== src/Country.antt =====
-- Countries of call signs: src/analyze/cty.js and geo.js.
pub mod Resolver
pub mod Longest
pub mod Fill
pub mod FillLaws
pub mod Grid
pub mod GridLaws
pub mod Location
