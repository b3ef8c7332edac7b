-- ===== src/Ebpf/Decode.antt =====
-- internal/ebpf/decode_linux.go: convertKernelEvent, cstring and ipv4String. A char array is the list
-- of its bytes; unsigned fields are natural numbers below the bounds of their widths.
use ltm.Prelude.{
  ℕ, ◌/◌, ◌%◌, ℤ, pos, Bool, not, ◌&&◌, List, [], ◌∷◌, ◌++◌, Text, codes, Option, none, some, ◌==◌,
  text_eq, is_empty, ltb_ℤ, leb_ℤ, eq_ℤ, if◌then◌else◌,
}
use ltm.Go.Numbers.{decimal}
use ltm.Go.Time.{Time, add_duration}
use ltm.Storage.Event.{Event, Value, number, string, no_event}
use ltm.Storage.Store.{schema_version}
use ltm.Ebpf.Proc.{read_ppid}

-- collectorEvent.
pub record KernelEvent : Type 0 where
  pub ts_ns : ℕ
  pub bytes : ℕ
  pub pid : ℕ
  pub uid : ℕ
  pub local_port : ℕ
  pub remote_port : ℕ
  pub local_ip4 : ℕ
  pub remote_ip4 : ℕ
  pub comm : List ℕ
  pub category : List ℕ
  pub action : List ℕ
  pub path : List ℕ
  pub old_path : List ℕ
  pub syscall_nr : ℕ
  pub fd : ℤ
  pub aux : ℕ

unfoldable pub cstring : List ℕ → Text
cstring [] = []
cstring (b ∷ bs) = if b == 0 then [] else b ∷ cstring bs

unfoldable pub ipv4_string : ℕ → Text
ipv4_string v =
    decimal (v % 256)
    ++ codes "."
    ++ decimal (v / 256 % 256)
    ++ codes "."
    ++ decimal (v / 65536 % 256)
    ++ codes "."
    ++ decimal (v / 16777216 % 256)

abbrev pub generic_metadata : KernelEvent → List (Text × Value)
generic_metadata ke =
    (codes "syscall_nr", number (pos ke.syscall_nr))
    ∷ (codes "fd", number ke.fd)
    ∷ (codes "aux", number (pos ke.aux))
    ∷ []

abbrev pub block_metadata : KernelEvent → List (Text × Value)
block_metadata ke =
    (codes "dev", number (pos ke.aux))
    ∷ (codes "nr_sector", number (pos ke.syscall_nr))
    ∷ (codes "rwbs", string (cstring ke.path))
    ∷ []

abbrev pub base_event : Time → KernelEvent → ℕ → Event
base_event boot_time ke dropped = record no_event {
  schema_version = schema_version;
  timestamp = add_duration boot_time ke.ts_ns;
  category = cstring ke.category;
  action = cstring ke.action;
  pid = pos ke.pid;
  uid = pos ke.uid;
  comm = cstring ke.comm;
  path = cstring ke.path;
  old_path = cstring ke.old_path;
  local_port = pos ke.local_port;
  remote_port = pos ke.remote_port;
  metadata = generic_metadata ke;
  dropped_before = dropped;
}

abbrev pub has_kind : Event → Text → Text → Bool
has_kind ev category action = text_eq ev.category category && text_eq ev.action action

unfoldable pub with_addresses : KernelEvent → Event → Event
with_addresses ke ev = record ev {
  local_addr = if not (ke.local_ip4 == 0) then ipv4_string ke.local_ip4 else ev.local_addr;
  remote_addr = if not (ke.remote_ip4 == 0) then ipv4_string ke.remote_ip4 else ev.remote_addr;
}

unfoldable pub with_exe : Event → Event
with_exe ev = record ev {
  exe =
      if has_kind ev (codes "process") (codes "exec") && not (is_empty ev.path)
      then ev.path
      else ev.exe;
}

unfoldable pub with_block : KernelEvent → Event → Event
with_block ke ev = record ev {
  path = if text_eq ev.category (codes "block") then [] else ev.path;
  metadata = if text_eq ev.category (codes "block") then block_metadata ke else ev.metadata;
}

unfoldable pub with_fork : KernelEvent → Event → Event
with_fork ke ev = record ev {
  ppid =
      if has_kind ev (codes "process") (codes "fork") && not (ke.aux == 0)
      then pos ke.aux
      else ev.ppid;
}

unfoldable pub with_target : KernelEvent → Event → Event
with_target ke ev = record ev {
  target_pid =
      if has_kind ev (codes "process") (codes "kill") && ltb_ℤ (pos 0) ke.fd
      then ke.fd
      else ev.target_pid;
}

abbrev pub or_ppid : ℤ → Option ℤ → ℤ
or_ppid ppid none = ppid
or_ppid ppid (some read) = read

unfoldable pub with_parent : (ℤ → Option Text) → Event → Event
with_parent read_stat ev = record ev {
  ppid =
      if ltb_ℤ (pos 0) ev.pid && eq_ℤ ev.ppid (pos 0) && not (text_eq ev.action (codes "fork"))
      then or_ppid ev.ppid (read_ppid read_stat ev.pid)
      else ev.ppid;
}

unfoldable pub with_listen_fd : KernelEvent → Event → Event
with_listen_fd ke ev = record ev {
  metadata =
      if text_eq ev.action (codes "listen") && is_empty ev.local_addr && leb_ℤ (pos 0) ke.fd
      then ev.metadata ++ (codes "listen_fd", number ke.fd) ∷ []
      else ev.metadata;
}

unfoldable pub convert_kernel_event : (ℤ → Option Text) → Time → KernelEvent → ℕ → Event
convert_kernel_event read_stat boot_time ke dropped = with_listen_fd ke (
    with_parent read_stat (
      with_target ke (
        with_fork ke
          (with_block ke (with_exe (with_addresses ke (base_event boot_time ke dropped)))))))
