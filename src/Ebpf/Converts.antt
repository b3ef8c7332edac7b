-- ===== src/Ebpf/Converts.antt =====
-- What convertKernelEvent keeps of a kernel record.
use ltm.Prelude.{
  ℕ, ◌≡◌, refl, ap, ℤ, pos, Bool, true, false, not, ◌&&◌, [], ◌∷◌, ◌++◌, Text, codes, Option, ◌==◌,
  any, text_eq, is_empty, ltb_ℤ, eq_ℤ, zero, suc, ◌/◌, ◌%◌, sym, List, append-nil, leb_ℤ, arith,
  if◌then◌else◌, Bool-cases, inl, inr,
}
use ltm.Go.Numbers.{decimal}
use ltm.Go.Time.{Time, add_duration}
use ltm.Storage.Event.{Event, Value, number, string}
use ltm.Ebpf.Proc.{read_ppid}
use ltm.Ebpf.Decode.{
  block_metadata, generic_metadata, KernelEvent, cstring, ipv4_string, or_ppid, with_addresses,
  with_exe, with_block, with_fork, with_target, with_parent, with_listen_fd, convert_kernel_event,
}

-- A text without a NUL that fits its array is read back from it, whatever stands behind its NUL.
cstring-terminated : (s junk : Text) → any (λ c. c == 0) s ≡ false → cstring (s ++ 0 ∷ junk) ≡ s
unfolding cstring
cstring-terminated [] junk h = refl
cstring-terminated (c ∷ s) junk h = elim (Bool-cases (c == 0)) [
  | inl e ↦ absurd (ground (arith, e, h))
  | inr e ↦ rw e (ap (◌∷◌ c) (cstring-terminated s junk (ground (arith, e, h))))
]

unless_empty :
    (b : Bool) (p : Text) → (if b && not (is_empty p) then p else []) ≡ (if b then p else [])
unless_empty false p = refl
unless_empty true [] = refl
unless_empty true (c ∷ p) = refl

-- The fork's record names the parent; of other events it is read, unless the pid is 0.
abbrev set_parent : Bool → Bool → ℕ → ℕ → Option ℤ → ℤ → ℤ
set_parent process fork pid aux read ppid =
    if ltb_ℤ (pos 0) (pos pid) && eq_ℤ ppid (pos 0) && not fork then or_ppid ppid read else ppid

parent :
    (process fork : Bool) (pid aux : ℕ) (read : Option ℤ)
    → set_parent process fork pid aux read
        (if (process && fork) && not (aux == 0) then pos aux else pos 0)
      ≡ (if fork
          then (if process then pos aux else pos 0)
          else if pid == 0
          then pos 0
          else or_ppid (pos 0) read)
parent true true pid zero read = ground arith
parent true true pid (suc aux) read = ground arith
parent false true pid aux read = ground arith
parent true false zero aux read = refl
parent false false zero aux read = refl
parent true false (suc pid) aux read = ground arith
parent false false (suc pid) aux read = ground arith

left_full : (s t : Text) → is_empty s ≡ false → is_empty (s ++ t) ≡ false
left_full [] t h = absurd (cc h)
left_full (x ∷ s) t h = refl

ends_full : (s : Text) → is_empty (s ++ codes ".") ≡ false
ends_full [] = refl
ends_full (x ∷ s) = refl

ipv4_string-full : (v : ℕ) → is_empty (ipv4_string v) ≡ false
unfolding ipv4_string
ipv4_string-full v =
    left_full
      (decimal (v % 256)
        ++ codes "."
        ++ decimal (v / 256 % 256)
        ++ codes "."
        ++ decimal (v / 65536 % 256)
        ++ codes ".")
      (decimal (v / 16777216 % 256))
      (ends_full (
        decimal (v % 256)
        ++ codes "."
        ++ decimal (v / 256 % 256)
        ++ codes "."
        ++ decimal (v / 65536 % 256)))

-- An address is missing just where the record's is 0.
no_address : (v : ℕ) → is_empty (if not (v == 0) then ipv4_string v else []) ≡ (v == 0)
no_address v = elim (Bool-cases (v == 0)) [ inl e ↦ rw e refl | inr e ↦ rw e (ipv4_string-full v) ]

module _ (read_stat : ℤ → Option Text) (boot_time : Time) (ke : KernelEvent) (dropped : ℕ) where
  abbrev is_kind_of : Text → Text → Bool
  is_kind_of category action =
      text_eq (cstring ke.category) category && text_eq (cstring ke.action) action

  abbrev is_block : Bool
  is_block = text_eq (cstring ke.category) (codes "block")

  -- What the event holds, field by field, in terms of the record alone.
  pub record IsConverted (ev : Event) : Type 0 where
    pub schema_version : ev.schema_version ≡ 1
    pub timestamp : ev.timestamp ≡ add_duration boot_time ke.ts_ns
    pub pid : ev.pid ≡ pos ke.pid
    pub uid : ev.uid ≡ pos ke.uid
    pub category : ev.category ≡ cstring ke.category
    pub action : ev.action ≡ cstring ke.action
    pub comm : ev.comm ≡ cstring ke.comm
    pub old_path : ev.old_path ≡ cstring ke.old_path
    pub dropped_before : ev.dropped_before ≡ dropped
    pub path : ev.path ≡ (if is_block then [] else cstring ke.path)
    pub exe : ev.exe ≡ (if is_kind_of (codes "process") (codes "exec") then cstring ke.path else [])
    pub ppid : ev.ppid ≡ (
        if text_eq (cstring ke.action) (codes "fork")
        then (if text_eq (cstring ke.category) (codes "process") then pos ke.aux else pos 0)
        else if ke.pid == 0
        then pos 0
        else or_ppid (pos 0) (read_ppid read_stat (pos ke.pid)))
    pub local_addr : ev.local_addr ≡ (if ke.local_ip4 == 0 then [] else ipv4_string ke.local_ip4)
    pub remote_addr :
        ev.remote_addr ≡ (if ke.remote_ip4 == 0 then [] else ipv4_string ke.remote_ip4)
    pub local_port : ev.local_port ≡ pos ke.local_port
    pub remote_port : ev.remote_port ≡ pos ke.remote_port
    pub target_pid : ev.target_pid ≡ (
        if is_kind_of (codes "process") (codes "kill") && ltb_ℤ (pos 0) ke.fd then ke.fd else pos 0)
    pub metadata :
        ev.metadata
        ≡ (if is_block
            then (codes "dev", number (pos ke.aux))
              ∷ (codes "nr_sector", number (pos ke.syscall_nr))
              ∷ (codes "rwbs", string (cstring ke.path))
              ∷ []
            else (codes "syscall_nr", number (pos ke.syscall_nr))
              ∷ (codes "fd", number ke.fd)
              ∷ (codes "aux", number (pos ke.aux))
              ∷ [])
          ++ (if text_eq (cstring ke.action) (codes "listen")
                && ke.local_ip4 == 0
                && leb_ℤ (pos 0) ke.fd
              then (codes "listen_fd", number ke.fd) ∷ []
              else [])
    pub others :
        (ev.id ≡ 0)
        × (ev.container_id ≡ [])
        × (ev.cgroup_path ≡ [])
        × (ev.remote_host ≡ [])
        × (ev.exit_code ≡ pos 0)
        × (ev.raw ≡ [])

  listening :
      (action : Text) (block : Bool) (xs ys : List (Text × Value)) {b : Bool}
      → b ≡ (ke.local_ip4 == 0)
      → (if text_eq action (codes "listen") && b && leb_ℤ (pos 0) ke.fd
          then (if block then xs else ys) ++ (codes "listen_fd", number ke.fd) ∷ []
          else if block
          then xs
          else ys)
        ≡ (if block then xs else ys)
          ++ (if text_eq action (codes "listen") && ke.local_ip4 == 0 && leb_ℤ (pos 0) ke.fd
              then (codes "listen_fd", number ke.fd) ∷ []
              else [])
  listening action block xs ys {b} h =
      rw (sym h) (split (text_eq action (codes "listen") && b && leb_ℤ (pos 0) ke.fd))
    where
      split :
          (c : Bool)
          → (if c
              then (if block then xs else ys) ++ (codes "listen_fd", number ke.fd) ∷ []
              else if block
              then xs
              else ys)
            ≡ (if block then xs else ys)
              ++ (if c then (codes "listen_fd", number ke.fd) ∷ [] else [])
      split true = refl
      split false = sym (append-nil (if block then xs else ys))

  -- For every record, boot time and count of drops, every field of the event: its time is the boot time
  -- and the record's, and each port, address, name and number is the one of its own name; the path
  -- becomes the program of an exec, and the operation in a block event's metadata; the parent is a
  -- fork's second number, and else what /proc has, unless the pid is 0; a kill has its target; a listen
  -- without a local address has its descriptor in the metadata; and what the kernel does not tell is
  -- left empty.
  pub convert-IsConverted : IsConverted (convert_kernel_event read_stat boot_time ke dropped)
  unfolding convert_kernel_event with_addresses with_exe with_block with_fork with_target
      with_parent with_listen_fd
  convert-IsConverted = record {
    schema_version = refl;
    timestamp = refl;
    pid = refl;
    uid = refl;
    category = refl;
    action = refl;
    comm = refl;
    old_path = refl;
    dropped_before = refl;
    path = refl;
    exe = unless_empty (is_kind_of (codes "process") (codes "exec")) (cstring ke.path);
    ppid =
        parent (text_eq (cstring ke.category) (codes "process"))
          (text_eq (cstring ke.action) (codes "fork")) ke.pid ke.aux
          (read_ppid read_stat (pos ke.pid));
    local_addr = ground arith;
    remote_addr = ground arith;
    local_port = refl;
    remote_port = refl;
    target_pid = refl;
    metadata =
        listening (cstring ke.action) is_block (block_metadata ke) (generic_metadata ke)
          (no_address ke.local_ip4);
    others = (refl, refl, refl, refl, refl, refl);
  }
