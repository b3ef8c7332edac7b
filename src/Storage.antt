-- ===== src/Storage.antt =====
-- internal/storage: the event log on SQLite.
pub mod Event
pub mod Open
pub mod Totals
pub mod Select
pub mod Statements
pub mod Store
pub mod Search
pub mod Raw
pub mod Demo
pub mod Write
