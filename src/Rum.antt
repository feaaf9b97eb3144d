-- ===== src/Rum.antt =====
-- src/probe/rum.ts: the aggregator of browser beacons. Times are milliseconds, measured values are
-- millionths. The maps of the class are the fields of the record; a method returns the new record.
pub mod Routes
pub mod Samples
pub mod State
pub mod Ingest
pub mod Bounds
pub mod Order
pub mod Privacy
pub mod Prometheus
pub mod Report
mod Tests
