-- ===== src/Diff.antt =====
-- internal/diff/engine.go: the changes between two times, from the events of the log.
pub mod Report
pub mod Actions
pub mod Lists
pub mod Writers
pub mod Processes
