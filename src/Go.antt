-- ===== src/Go.antt =====
-- The parts of Go's standard library that the program calls: strings, strconv, filepath.Clean,
-- time, net/url and flag.
pub mod Strings
pub mod Numbers
pub mod Filepath
pub mod Time
pub mod Url
pub mod FlagSet
