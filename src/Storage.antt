-- ===== src/Storage.antt =====
-- The storage of rust/adsb-data-engine/src/storage.rs.
pub mod FlightId
pub mod Flights
pub mod Scenarios
pub mod Sharing
