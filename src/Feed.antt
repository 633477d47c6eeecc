-- ===== src/Feed.antt =====
-- rust/adsb-pulsar-client: the feed client, its line buffer, retry queues and health monitor.
pub mod Error
pub mod Metrics
pub mod Lines
pub mod Monitor
pub mod Slot
pub mod Client
pub mod Source
pub mod Config
