-- ===== src/Collector/NetGraph.antt =====
-- src/int_collector_influx.py, class `NetGraph`: the weights of the links, and the choice of a path
-- for the flow of a report.
pub mod Env
pub mod Weights
pub mod Paths
pub mod Export
pub mod Update
