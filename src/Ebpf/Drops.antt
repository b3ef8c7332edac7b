-- ===== src/Ebpf/Drops.antt =====
-- How the source of internal/ebpf/collector_linux.go hands the kernel's drop counters on.
use ltm.Prelude.{
  ℕ, ◌+◌, ◌%◌, ℤ, true, false, List, [], ◌∷◌, ◌++◌, Text, Option, none, some, ◌≡◌, refl, arith, ok,
  err,
}
use ltm.Go.Time.{Time, two_64}
use ltm.Storage.Event.{Event}
use ltm.Ebpf.Attach.{Attached}
use ltm.Ebpf.Decode.{
  KernelEvent, convert_kernel_event, with_addresses, with_exe, with_block, with_fork, with_target,
  with_parent, with_listen_fd,
}
use ltm.Ebpf.Source.{
  Read, Reading, Setup, SourceError, dropped_since, malformed_record, read_error, read_loop,
  read_ringbuf_drops, record_read, run_source, send, set_up, nothing_read,
}

-- The sum of DroppedBefore.
abbrev pub total_dropped : List Event → ℕ
total_dropped [] = 0
total_dropped (ev ∷ events) = ev.dropped_before + total_dropped events

total_dropped-append :
    (xs ys : List Event) → total_dropped (xs ++ ys) ≡ total_dropped xs + total_dropped ys
total_dropped-append [] ys = omega arith
total_dropped-append (x ∷ xs) ys = omega (arith, total_dropped-append xs ys)

-- The count of drops at the last record that was sent, or before the first one.
abbrev pub last_count : {E : Type 0} → ℕ → List (Read E) → ℕ
last_count n [] = n
last_count n (read_error e ∷ s) = n
last_count n (record_read none counters room ∷ s) = last_count n s
last_count n (record_read (some ke) counters true ∷ s) = last_count (read_ringbuf_drops counters) s
last_count n (record_read (some ke) counters false ∷ s) = n

convert-dropped_before :
    (read_stat : ℤ → Option Text) (boot_time : Time) (ke : KernelEvent) (n : ℕ)
    → (convert_kernel_event read_stat boot_time ke n).dropped_before ≡ n
unfolding convert_kernel_event with_addresses with_exe with_block with_fork with_target with_parent
    with_listen_fd
convert-dropped_before read_stat boot_time ke n = refl

-- The sum is the count, as 64 bits.
abbrev Balanced : Reading → ℕ → Type 0
Balanced r n = total_dropped r.sent % two_64 ≡ n % two_64

module _ (read_stat : ℤ → Option Text) (boot_time : Time) where
  send-Balanced :
      (r : Reading) (ke : KernelEvent) (counters : Option (List ℕ))
      → Balanced r r.last_kernel_dropped
      → Balanced (send read_stat boot_time r ke counters) (read_ringbuf_drops counters)
  unfolding send
  send-Balanced r ke counters h =
      let ev = convert_kernel_event read_stat boot_time ke (dropped_since r counters) in
      omega (
        arith,
        h,
        total_dropped-append r.sent (ev ∷ []),
        convert-dropped_before read_stat boot_time ke (dropped_since r counters),
      )

  read_loop-Balanced :
      {E : Type 0} (r : Reading) (s : List (Read E))
      → Balanced r r.last_kernel_dropped
      → Balanced (read_loop read_stat boot_time r s).0 (last_count r.last_kernel_dropped s)
  unfolding read_loop send
  read_loop-Balanced r [] h = h
  read_loop-Balanced r (read_error e ∷ s) h = h
  read_loop-Balanced r (record_read none counters room ∷ s) h =
      read_loop-Balanced (malformed_record r) s h
  read_loop-Balanced r (record_read (some ke) counters true ∷ s) h =
      read_loop-Balanced (send read_stat boot_time r ke counters) s (send-Balanced r ke counters h)
  read_loop-Balanced r (record_read (some ke) counters false ∷ s) h = h

-- A source whose setup fails has sent nothing and returns that error. Otherwise the sum of
-- DroppedBefore over the events that it has sent is, as 64 bits, the count of drops that it has read at
-- the last of them, wherever the reading ends.
pub run_source-drops :
    {E Link : Type 0} (read_stat : ℤ → Option Text) (s : Setup E Link) (reads : List (Read E))
    → ((e : SourceError E)
        → set_up s ≡ err e
        → ((run_source read_stat s reads).0.sent ≡ [])
          × ((run_source read_stat s reads).1 ≡ some e))
      × ((p : Time × Attached Link)
          → set_up s ≡ ok p
          → total_dropped (run_source read_stat s reads).0.sent % two_64
            ≡ last_count 0 reads % two_64)
unfolding run_source
run_source-drops read_stat s reads = (
  (λ e h. (rw h refl, rw h refl)),
  (λ p h. rw h (read_loop-Balanced read_stat p.0 nothing_read reads refl)),
)
