-- ===== src/Tests.antt =====
-- Runs of the definitions, and the theorems at concrete data, over a stand-in for the crates.
pub mod ToyCrates
pub mod Codec
pub mod ToyJson
pub mod Trees
pub mod Names
pub mod Keys
pub mod Stores
pub mod Pools
pub mod Transfers
pub mod States
pub mod Downloads
pub mod Disks
pub mod Configs
pub mod Commands
pub mod Servers
pub mod Sessions
