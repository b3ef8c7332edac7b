-- ===== src/Daemon.antt =====
-- internal/daemon/flush.go: the flush stage (Flush), and what it conserves (Conserves, Ends).
pub mod Flush
pub mod Conserves
pub mod Ends
pub mod Drops
pub mod Keeps
pub mod Records
pub mod Service
pub mod Shutdown
