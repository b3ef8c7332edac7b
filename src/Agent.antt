-- ===== src/Agent.antt =====
-- internal/agent/agent.go: from an agent's output to one read-only statement (Scan, Validate), and
-- from a specification to a command line (Resolve).
pub mod Scan
pub mod Keywords
pub mod Validate
pub mod Extract
pub mod SchemaDoc
pub mod Generate
pub mod Resolve
