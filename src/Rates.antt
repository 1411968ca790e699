-- ===== src/Rates.antt =====
-- The rate and dupe rules that public/js/stats.js and tui/index.js both implement.
pub mod Window
pub mod WindowLaws
pub mod Sweep
pub mod Dedupe
pub mod DedupeLaws
