-- ===== src/Cli.antt =====
-- internal/cli: the global flags (Flags, with the proofs in RoundTrip), the loop of `watch` (Watch), and
-- the commands `query` and `sql` (Ask), what is printed (Output), and `timeline` (Timeline).
pub mod Flags
pub mod Arguments
pub mod Process
pub mod Maintain
pub mod Root
pub mod RoundTrip
pub mod Watch
pub mod Signals
pub mod Ask
pub mod Output
pub mod Timeline
