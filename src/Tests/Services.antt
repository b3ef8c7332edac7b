-- ===== src/Tests/Services.antt =====
-- A shutdown of the daemon, and a source over a small ring buffer.
use ltm.Prelude.{
  ◌≤◌, ◌%◌, ℤ, pos, Bool, true, false, ◌&&◌, List, [], ◌∷◌, Text, codes, Option, none, some, ◌≡◌,
  refl, Result, ok, err, inl, ◌⊎◌, text_eq,
}
use ltm.Go.Time.{Time, two_64}
use ltm.Daemon.Service.{
  received, Run, Service, begin, cancel, close, collector_ends, flush_ends, next, on_cancel,
  close_ingest, join_collector, join_flush, returned, select_done, wait_collector, wait_flush,
  working, with_defaults,
}
use ltm.Daemon.Shutdown.Returns.{IsQuiet, IsRecording, Run-Ends}
use ltm.Daemon.Shutdown.{Run-IsShutdown, is_none, is_received, no_failure}
use ltm.Ebpf.Attach.Counts.{AllAttached, attach_tracepoints-AllAttached}
use ltm.Ebpf.Attach.{TracepointSpec, Attached, attach_tracepoints, collector_tracepoints}
use ltm.Ebpf.Drops.{last_count, run_source-drops, total_dropped}
use ltm.Ebpf.Source.{Read, Setup, SourceError, record_read, run_source, set_up}
use ltm.Tests.Kernel.{exec_record}

-- The context is cancelled, and both tasks end with no error, the flush stage behind the close.
abbrev at_end : Service
at_end = record {
  phase = returned;
  cancelled = true;
  collector = received none;
  flush = received none;
  closed = true;
  col_done = false;
  flush_done = false;
  run_err = none;
}

shutdown : Run 7 at_end
unfolding on_cancel close_ingest join_collector join_flush
shutdown =
    next
      (next
        (next
          (next
            (next (next (next begin (cancel refl)) (select_done refl refl))
              (collector_ends none refl))
            (wait_collector none refl refl refl))
          (close refl))
        (flush_ends none refl (inl refl)))
      (wait_flush none refl refl refl)

Run-Ends_example : (7 ≤ 7) × (IsQuiet at_end → (at_end.phase ≡ returned) ⊎ IsRecording at_end)
Run-Ends_example = Run-Ends shutdown

Run-IsShutdown_example :
    (at_end.collector ≡ working → at_end.closed ≡ false)
    × (at_end.phase ≡ returned
        → (at_end.cancelled ≡ true)
          × (at_end.closed ≡ true)
          × (is_received at_end.collector ≡ true)
          × (is_received at_end.flush ≡ true)
          × (is_none at_end.run_err ≡ (no_failure at_end.collector && no_failure at_end.flush)))
Run-IsShutdown_example = Run-IsShutdown shutdown

defaults :
    with_defaults (record { ignore_paths = []; batch_size = pos 0; flush_period = pos 5 })
    ≡ record { ignore_paths = []; batch_size = pos 4096; flush_period = pos 5 }
unfolding with_defaults
defaults = refl

-- A collection without the optional programs, on a kernel without the block tracepoints.
abbrev links : TracepointSpec → Option Text
links tp = if_block (text_eq tp.group (codes "block")) tp.program
  where
    if_block : Bool → Text → Option Text
    if_block true p = none
    if_block false p = some p

abbrev attaches : Result Text (Attached Text)
attaches = attach_tracepoints (λ p. true) links collector_tracepoints

attach_tracepoints-AllAttached_example :
    AllAttached (λ p. true) links collector_tracepoints attaches
attach_tracepoints-AllAttached_example =
    attach_tracepoints-AllAttached (λ p. true) links collector_tracepoints

abbrev setup : Setup Text Text
setup = record {
  memlock = none;
  stat = some (codes "btime 12");
  load = none;
  collection = ok (λ p. true);
  self_pid = none;
  tracepoint = links;
  reader = none;
}

abbrev reads : List (Read Text)
reads =
    record_read (some exec_record) (some (2 ∷ 3 ∷ [])) true
    ∷ record_read none (some (9 ∷ [])) true
    ∷ record_read (some exec_record) (some (4 ∷ 4 ∷ [])) true
    ∷ []

abbrev no_stat : ℤ → Option Text
no_stat pid = none

run_source-drops_example :
    ((e : SourceError Text)
      → set_up setup ≡ err e
      → ((run_source no_stat setup reads).0.sent ≡ [])
        × ((run_source no_stat setup reads).1 ≡ some e))
    × ((p : Time × Attached Text)
        → set_up setup ≡ ok p
        → total_dropped (run_source no_stat setup reads).0.sent % two_64
          ≡ last_count 0 reads % two_64)
run_source-drops_example = run_source-drops no_stat setup reads
