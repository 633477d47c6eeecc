-- ===== src/Weather.antt =====
-- rust/adsb-weather-server: the weather service's control plane and refresh loop.
pub mod Types
pub mod Grid
pub mod Snapshot
pub mod OpenMeteo
pub mod Provider
pub mod StateFile
pub mod Control
pub mod Schedule
pub mod Refresh
