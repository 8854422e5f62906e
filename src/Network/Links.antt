-- ===== src/Network/Links.antt =====
-- src/Network_API_l.py, class `NetworkAPI`: the links of a network and their options.
pub mod Library
pub mod Rows
pub mod Ends
pub mod Store
pub mod Setters
pub mod Auto
pub mod Reachable
