-- ===== src/Examples.antt =====
-- The theorems at concrete inputs.
pub mod Data
mod Feed
mod Connecting
mod Source
mod Weather
mod Ingest
mod Storage
mod Provider
mod Scenarios
mod Sharing
