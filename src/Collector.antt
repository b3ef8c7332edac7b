-- ===== src/Collector.antt =====
-- internal/collector: the ignore rules (Filter, with Components and Ignores) and Run (Run).
pub mod Filter
pub mod Components
pub mod Ignores
pub mod Run
