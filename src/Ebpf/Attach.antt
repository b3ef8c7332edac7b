-- ===== src/Ebpf/Attach.antt =====
-- internal/abi/tracepoints_gen.go and internal/ebpf/attach_linux.go: the table of tracepoints, and
-- attachTracepoints. Whether the loaded collection has a program is the argument `programs`; the eBPF
-- library's attachment is the argument `tracepoint`, where `none` is its error.
pub mod Counts
use ltm.Prelude.{
  ℕ, ◌+◌, Bool, true, false, not, ◌&&◌, List, [], ◌∷◌, ◌++◌, Text, codes, Option, none, some,
  length, length-append, Bool-cases, inl, inr, if◌then◌else◌, Result, ok, err, ◌≡◌, refl, arith,
  any, ◌∙◌, append_assoc, append-nil, sym,
}

pub record TracepointSpec : Type 0 where
  pub group : Text
  pub event : Text
  pub program : Text
  pub optional : Bool

abbrev required : Text → Text → Text → TracepointSpec
required group event program = record {
  group = group;
  event = event;
  program = program;
  optional = false;
}

abbrev spare : Text → Text → Text → TracepointSpec
spare group event program = record {
  group = group;
  event = event;
  program = program;
  optional = true;
}

abbrev pub collector_tracepoints : List TracepointSpec
collector_tracepoints =
    required (codes "sched") (codes "sched_process_fork") (codes "trace_sched_process_fork")
    ∷ required (codes "sched") (codes "sched_process_exit") (codes "trace_sched_process_exit")
    ∷ spare (codes "block") (codes "block_rq_issue") (codes "trace_block_rq_issue")
    ∷ required (codes "syscalls") (codes "sys_enter_execve") (codes "trace_sys_enter_execve")
    ∷ required (codes "syscalls") (codes "sys_enter_execveat") (codes "trace_sys_enter_execveat")
    ∷ required (codes "syscalls") (codes "sys_enter_clone") (codes "trace_sys_enter_clone")
    ∷ spare (codes "syscalls") (codes "sys_enter_clone3") (codes "trace_sys_enter_clone3")
    ∷ required (codes "syscalls") (codes "sys_enter_kill") (codes "trace_sys_enter_kill")
    ∷ required (codes "syscalls") (codes "sys_enter_tgkill") (codes "trace_sys_enter_tgkill")
    ∷ required (codes "syscalls") (codes "sys_enter_open") (codes "trace_sys_enter_open")
    ∷ required (codes "syscalls") (codes "sys_enter_openat") (codes "trace_sys_enter_openat")
    ∷ required (codes "syscalls") (codes "sys_enter_openat2") (codes "trace_sys_enter_openat2")
    ∷ required (codes "syscalls") (codes "sys_exit_open") (codes "trace_sys_exit_open")
    ∷ required (codes "syscalls") (codes "sys_exit_openat") (codes "trace_sys_exit_openat")
    ∷ required (codes "syscalls") (codes "sys_exit_openat2") (codes "trace_sys_exit_openat2")
    ∷ required (codes "syscalls") (codes "sys_enter_close") (codes "trace_sys_enter_close")
    ∷ required (codes "syscalls") (codes "sys_enter_read") (codes "trace_sys_enter_read")
    ∷ required (codes "syscalls") (codes "sys_enter_pread64") (codes "trace_sys_enter_pread64")
    ∷ required (codes "syscalls") (codes "sys_enter_write") (codes "trace_sys_enter_write")
    ∷ required (codes "syscalls") (codes "sys_enter_pwrite64") (codes "trace_sys_enter_pwrite64")
    ∷ required (codes "syscalls") (codes "sys_enter_readv") (codes "trace_sys_enter_readv")
    ∷ required (codes "syscalls") (codes "sys_enter_writev") (codes "trace_sys_enter_writev")
    ∷ required (codes "syscalls") (codes "sys_enter_lseek") (codes "trace_sys_enter_lseek")
    ∷ required (codes "syscalls") (codes "sys_enter_truncate") (codes "trace_sys_enter_truncate")
    ∷ required (codes "syscalls") (codes "sys_enter_ftruncate") (codes "trace_sys_enter_ftruncate")
    ∷ required (codes "syscalls") (codes "sys_enter_unlinkat") (codes "trace_sys_enter_unlinkat")
    ∷ required (codes "syscalls") (codes "sys_enter_renameat2") (codes "trace_sys_enter_renameat2")
    ∷ required (codes "syscalls") (codes "sys_enter_linkat") (codes "trace_sys_enter_linkat")
    ∷ required (codes "syscalls") (codes "sys_enter_symlinkat") (codes "trace_sys_enter_symlinkat")
    ∷ required (codes "syscalls") (codes "sys_enter_mkdirat") (codes "trace_sys_enter_mkdirat")
    ∷ spare (codes "syscalls") (codes "sys_enter_mkdir") (codes "trace_sys_enter_mkdir")
    ∷ spare (codes "syscalls") (codes "sys_enter_rmdir") (codes "trace_sys_enter_rmdir")
    ∷ required (codes "syscalls") (codes "sys_enter_readlinkat")
        (codes "trace_sys_enter_readlinkat")
    ∷ required (codes "syscalls") (codes "sys_enter_chmod") (codes "trace_sys_enter_chmod")
    ∷ required (codes "syscalls") (codes "sys_enter_fchmod") (codes "trace_sys_enter_fchmod")
    ∷ required (codes "syscalls") (codes "sys_enter_fchmodat") (codes "trace_sys_enter_fchmodat")
    ∷ required (codes "syscalls") (codes "sys_enter_chown") (codes "trace_sys_enter_chown")
    ∷ required (codes "syscalls") (codes "sys_enter_fchown") (codes "trace_sys_enter_fchown")
    ∷ required (codes "syscalls") (codes "sys_enter_fchownat") (codes "trace_sys_enter_fchownat")
    ∷ required (codes "syscalls") (codes "sys_enter_newfstatat")
        (codes "trace_sys_enter_newfstatat")
    ∷ required (codes "syscalls") (codes "sys_enter_access") (codes "trace_sys_enter_access")
    ∷ required (codes "syscalls") (codes "sys_enter_faccessat") (codes "trace_sys_enter_faccessat")
    ∷ required (codes "syscalls") (codes "sys_enter_pipe2") (codes "trace_sys_enter_pipe2")
    ∷ required (codes "syscalls") (codes "sys_enter_dup") (codes "trace_sys_enter_dup")
    ∷ required (codes "syscalls") (codes "sys_enter_dup2") (codes "trace_sys_enter_dup2")
    ∷ required (codes "syscalls") (codes "sys_enter_dup3") (codes "trace_sys_enter_dup3")
    ∷ required (codes "syscalls") (codes "sys_enter_mmap") (codes "trace_sys_enter_mmap")
    ∷ required (codes "syscalls") (codes "sys_enter_munmap") (codes "trace_sys_enter_munmap")
    ∷ required (codes "syscalls") (codes "sys_enter_mprotect") (codes "trace_sys_enter_mprotect")
    ∷ required (codes "syscalls") (codes "sys_enter_sendfile") (codes "trace_sys_enter_sendfile")
    ∷ spare (codes "syscalls") (codes "sys_enter_copy_file_range")
        (codes "trace_sys_enter_copy_file_range")
    ∷ required (codes "syscalls") (codes "sys_enter_splice") (codes "trace_sys_enter_splice")
    ∷ required (codes "syscalls") (codes "sys_enter_socket") (codes "trace_sys_enter_socket")
    ∷ required (codes "syscalls") (codes "sys_enter_connect") (codes "trace_sys_enter_connect")
    ∷ required (codes "syscalls") (codes "sys_enter_bind") (codes "trace_sys_enter_bind")
    ∷ required (codes "syscalls") (codes "sys_enter_listen") (codes "trace_sys_enter_listen")
    ∷ required (codes "syscalls") (codes "sys_enter_accept") (codes "trace_sys_enter_accept")
    ∷ required (codes "syscalls") (codes "sys_enter_accept4") (codes "trace_sys_enter_accept4")
    ∷ required (codes "syscalls") (codes "sys_enter_sendto") (codes "trace_sys_enter_sendto")
    ∷ required (codes "syscalls") (codes "sys_enter_recvfrom") (codes "trace_sys_enter_recvfrom")
    ∷ required (codes "syscalls") (codes "sys_enter_sendmsg") (codes "trace_sys_enter_sendmsg")
    ∷ required (codes "syscalls") (codes "sys_enter_recvmsg") (codes "trace_sys_enter_recvmsg")
    ∷ required (codes "syscalls") (codes "sys_enter_shutdown") (codes "trace_sys_enter_shutdown")
    ∷ []

pub record Attached (Link : Type 0) : Type 0 where
  pub links : List Link
  pub attached : ℕ
  pub skipped : ℕ

module _ {Link : Type 0} (programs : Text → Bool) (tracepoint : TracepointSpec → Option Link) where
  abbrev pub skip : Attached Link → Attached Link
  skip a = record a { skipped = a.skipped + 1 }

  abbrev pub add_link : Attached Link → Option Link → Attached Link
  add_link a none = skip a
  add_link a (some l) = record a { links = a.links ++ l ∷ []; attached = a.attached + 1 }

  -- The loop; the error is the program that is missing.
  unfoldable pub attach_from : Attached Link → List TracepointSpec → Result Text (Attached Link)
  attach_from a [] = ok a
  attach_from a (tp ∷ tps) =
      if programs tp.program
      then attach_from (add_link a (tracepoint tp)) tps
      else if tp.optional
      then attach_from (skip a) tps
      else err tp.program

  unfoldable pub attach_tracepoints : List TracepointSpec → Result Text (Attached Link)
  unfolding attach_from
  attach_tracepoints tps = attach_from (record { links = []; attached = 0; skipped = 0 }) tps
