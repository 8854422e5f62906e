-- ===== src/Network.antt =====
-- src/Network_API_l.py, class `NetworkAPI`: the nodes of a network and their options.
pub mod Value
pub mod Mininet
pub mod Ids
pub mod Nodes
pub mod Settings
pub mod Flags
pub mod Links
pub mod Start
pub mod Strategies
pub mod Cpu
