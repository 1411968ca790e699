-- ===== src/Packets.antt =====
-- From the packets of the loggers to events: src/parsers and src/udp.
pub mod Fields
pub mod Contact
pub mod Score
pub mod Breakdown
pub mod Dispatch
pub mod Events
pub mod Ingest
pub mod Broadcast
