-- ===== src/Ebpf/Source.antt =====
-- internal/ebpf/collector_linux.go: Run. What the setup calls give is the record Setup; the ring buffer
-- is the list of what the loop reads from it, with what stands in the drop counters at that time.
use ltm.Prelude.{
  ℕ, ℤ, Bool, true, false, List, [], ◌∷◌, ◌++◌, Text, Option, none, some, ◌==◌, if◌then◌else◌,
  Result, ok, err, ◌>>=◌,
}
use ltm.Go.Time.{Time, add_64, sub_64}
use ltm.Storage.Event.{Event}
use ltm.Ebpf.Attach.{Attached, TracepointSpec, attach_tracepoints, collector_tracepoints}
use ltm.Ebpf.Boot.{wall_clock_boot_time}
use ltm.Ebpf.Decode.{KernelEvent, convert_kernel_event}

-- readRingbufDrops: the counters of the CPUs, or no map or a failed lookup.
unfoldable pub total_drops : ℕ → List ℕ → ℕ
total_drops total [] = total
total_drops total (drops ∷ rest) = total_drops (add_64 total drops) rest

unfoldable pub read_ringbuf_drops : Option (List ℕ) → ℕ
unfolding total_drops
read_ringbuf_drops none = 0
read_ringbuf_drops (some per_cpu) = total_drops 0 per_cpu

-- A record, decoded if it can be, with the counters at that time and whether the send is chosen over
-- ctx.Done(); or an error of the reader. The end of the list is the reader's close.
pub data Read (E : Type 0) : Type 0 where
  record_read : Option KernelEvent → Option (List ℕ) → Bool → Read E
  read_error : E → Read E

pub record Reading : Type 0 where
  pub last_kernel_dropped : ℕ
  pub decode_errors : ℕ
  pub sent : List Event

abbrev pub nothing_read : Reading
nothing_read = record { last_kernel_dropped = 0; decode_errors = 0; sent = [] }

abbrev pub malformed_record : Reading → Reading
malformed_record r = record r { decode_errors = add_64 r.decode_errors 1 }

abbrev pub dropped_since : Reading → Option (List ℕ) → ℕ
dropped_since r counters = sub_64 (read_ringbuf_drops counters) r.last_kernel_dropped

module _ (read_stat : ℤ → Option Text) (boot_time : Time) where
  unfoldable pub send : Reading → KernelEvent → Option (List ℕ) → Reading
  unfolding read_ringbuf_drops convert_kernel_event
  send r ke counters = record r {
    last_kernel_dropped = read_ringbuf_drops counters;
    sent = r.sent ++ convert_kernel_event read_stat boot_time ke (dropped_since r counters) ∷ [];
  }

  -- The loop, and its error.
  unfoldable pub read_loop : {E : Type 0} → Reading → List (Read E) → Reading × Option E
  unfolding send
  read_loop r [] = (r, none)
  read_loop r (read_error e ∷ s) = (r, some e)
  read_loop r (record_read none counters room ∷ s) = read_loop (malformed_record r) s
  read_loop r (record_read (some ke) counters true ∷ s) = read_loop (send r ke counters) s
  read_loop r (record_read (some ke) counters false ∷ s) =
      (record r { last_kernel_dropped = read_ringbuf_drops counters }, none)

-- What the calls before the loop give. `none` is success where a call has no result, and `programs` is
-- which programs the collection has.
pub record Setup (E Link : Type 0) : Type 0 where
  pub memlock : Option E
  pub stat : Option Text
  pub load : Option E
  pub collection : Result E (Text → Bool)
  pub self_pid : Option E
  pub tracepoint : TracepointSpec → Option Link
  pub reader : Option E

pub data SourceError (E : Type 0) : Type 0 where
  no_memlock no_load no_collection no_self_pid no_reader unreadable_ring : E → SourceError E
  no_boot_time none_attached : SourceError E
  missing_program : Text → SourceError E

module _ {E : Type 0} where
  abbrev pub try_call : (E → SourceError E) → Option E → Result (SourceError E) (Unit {0})
  try_call f none = ok tt
  try_call f (some e) = err (f e)

  abbrev pub booted : Option Time → Result (SourceError E) Time
  booted none = err no_boot_time
  booted (some t) = ok t

  abbrev pub collected : Result E (Text → Bool) → Result (SourceError E) (Text → Bool)
  collected (err e) = err (no_collection e)
  collected (ok programs) = ok programs

  abbrev pub attached_some :
      {Link : Type 0} → Result Text (Attached Link) → Result (SourceError E) (Attached Link)
  attached_some (err p) = err (missing_program p)
  attached_some (ok a) = if a.attached == 0 then err none_attached else ok a

  -- The calls up to the loop: the boot time, and the links.
  unfoldable pub set_up :
      {Link : Type 0} → Setup E Link → Result (SourceError E) (Time × Attached Link)
  unfolding attach_tracepoints wall_clock_boot_time
  set_up s = do
    memlock ← try_call no_memlock s.memlock
    boot_time ← booted (wall_clock_boot_time s.stat)
    loaded ← try_call no_load s.load
    programs ← collected s.collection
    named ← try_call no_self_pid s.self_pid
    a ← attached_some (attach_tracepoints programs s.tracepoint collector_tracepoints)
    opened ← try_call no_reader s.reader
    ok (boot_time, a)

  abbrev pub ring_error : Option E → Option (SourceError E)
  ring_error none = none
  ring_error (some e) = some (unreadable_ring e)

  abbrev pub run_loop :
      {Link : Type 0}
      → (ℤ → Option Text)
      → List (Read E)
      → Result (SourceError E) (Time × Attached Link)
      → Reading × Option (SourceError E)
  run_loop read_stat reads (err e) = (nothing_read, some e)
  run_loop read_stat reads (ok (boot_time, a)) =
      let r = read_loop read_stat boot_time nothing_read reads in (r.0, ring_error r.1)

  -- Run.
  unfoldable pub run_source :
      {Link : Type 0}
      → (ℤ → Option Text)
      → Setup E Link
      → List (Read E)
      → Reading × Option (SourceError E)
  unfolding set_up read_loop
  run_source read_stat s reads = run_loop read_stat reads (set_up s)
