-- ===== src/Collector.antt =====
-- src/int_collector_influx.py: what turns telemetry reports into path choices.
pub mod PathInfos
pub mod Hop
pub mod Report
pub mod NetGraph
pub mod Server
pub mod Influx
