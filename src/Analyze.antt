-- ===== src/Analyze.antt =====
-- The log analyzer: src/analyze.
pub mod Bands
pub mod Tokens
pub mod Cabrillo
pub mod Exchange
pub mod Lines
pub mod Live
pub mod Analysis
pub mod Adif
pub mod Contests
pub mod Grammar
