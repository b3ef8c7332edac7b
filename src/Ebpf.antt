-- ===== src/Ebpf.antt =====
-- internal/ebpf: what becomes of a kernel record (Decode, Converts) and of /proc (Proc, Boot), the
-- attachment of the programs (Attach), and the source that reads the records (Source) and
-- hands the kernel's drop counters on (Drops).
pub mod Proc
pub mod Boot
pub mod Decode
pub mod Converts
pub mod Attach
pub mod Source
pub mod Drops
