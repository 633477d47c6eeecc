-- ===== src/Ingest.antt =====
-- The ingest pipeline of rust/adsb-data-engine/src.
pub mod Text
pub mod Sbs
pub mod Table
pub mod Pipeline
