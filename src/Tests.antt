-- ===== src/Tests.antt =====
-- The theorems at concrete inputs: one file for each part of the program.
mod Setup
mod Updates
mod Server
mod Choices
mod Reports
mod Samples
mod Addresses
mod Nodes
mod Dicts
mod Edges
mod Links
mod Auto
mod Topo
mod World
mod Start
mod Compiled
mod Generated
mod Launch
