-- ===== src/Tests.antt =====
-- Test data, and the theorems at concrete inputs.
pub mod Agents
pub mod Args
pub mod Commands
pub mod Generators
pub mod Kernel
pub mod Paths
pub mod Questions
pub mod Services
pub mod Stores
pub mod Statements
pub mod Streams
pub mod Watches
pub mod Openings
pub mod Processes
pub mod Records
pub mod Reads
pub mod Running
pub mod Drops
