-- ===== src/Daemon/Shutdown.antt =====
-- The shutdown of runWithSource in internal/daemon/service.go.
pub mod Returns
use ltm.Prelude.{
  ℕ, ◌+◌, ◌≤◌, ◌<◌, Bool, true, false, not, ◌&&◌, Option, none, some, ◌≡◌, refl, arith, inl, inr,
  ◌⊎◌, Bool-cases,
}
use ltm.Storage.Event.{Error}
use ltm.Daemon.Service.{
  Phase, Run, Service, Step, Task, begin, cancel, close, close_ingest, closing, collector_ends,
  ended, flush_ends, join_collector, join_flush, joining_collector, joining_flush, next, on_cancel,
  on_collector, on_flush, received, returned, select_collector, select_done, select_flush,
  selecting, skip_collector, skip_flush, wait_collector, wait_flush, working,
}

abbrev pub is_received : Task → Bool
is_received (received e) = true
is_received (ended e) = false
is_received working = false

abbrev pub is_none : Option Error → Bool
is_none none = true
is_none (some e) = false

-- The task's result has not been received, or is no error.
abbrev pub no_failure : Task → Bool
no_failure (received e) = is_none e
no_failure (ended e) = true
no_failure working = true

abbrev pub same : Bool → Bool → Bool
same true b = b
same false b = not b

-- The service knows whose results it has received.
abbrev pub flush_known : Service → Bool
flush_known s = same s.flush_done (is_received s.flush)

abbrev pub known : Service → Bool
known s = same s.col_done (is_received s.collector) && flush_known s

-- What has been received, closed and cancelled at each place.
abbrev pub in_phase : Phase → Service → Bool
in_phase selecting s =
    not (is_received s.collector)
    && not (is_received s.flush)
    && not s.closed
    && is_none s.run_err
    && known s
in_phase joining_collector s = s.cancelled && not s.closed && known s
in_phase closing s = s.cancelled && not s.closed && is_received s.collector && flush_known s
in_phase joining_flush s = s.cancelled && s.closed && is_received s.collector && flush_known s
in_phase returned s = s.cancelled && s.closed && is_received s.collector && is_received s.flush

pub record IsSound (s : Service) : Type 0 where
  pub place : in_phase s.phase s ≡ true
  pub failure : is_none s.run_err ≡ (no_failure s.collector && no_failure s.flush)
  pub collected : s.col_done ≡ true → is_received s.collector ≡ true
  pub flushed : s.flush_done ≡ true → is_received s.flush ≡ true

Step-IsSound : {s t : Service} → Step s t → IsSound s → IsSound t
unfolding on_cancel on_collector on_flush join_collector close_ingest join_flush
Step-IsSound (cancel e) h = record {
  place = ground arith;
  failure = h.failure;
  collected = h.collected;
  flushed = h.flushed;
}
Step-IsSound (collector_ends e w) h = record {
  place = ground arith;
  failure = ground arith;
  collected = ground arith;
  flushed = h.flushed;
}
Step-IsSound (flush_ends e w b) h = record {
  place = ground arith;
  failure = ground arith;
  collected = h.collected;
  flushed = ground arith;
}
Step-IsSound (select_done p c) h = record {
  place = ground arith;
  failure = h.failure;
  collected = h.collected;
  flushed = h.flushed;
}
Step-IsSound (select_collector e p r) h = record {
  place = ground arith;
  failure = ground arith;
  collected = ground arith;
  flushed = h.flushed;
}
Step-IsSound (select_flush e p r) h = record {
  place = ground arith;
  failure = ground arith;
  collected = h.collected;
  flushed = ground arith;
}
Step-IsSound (wait_collector e p d r) h = record {
  place = ground arith;
  failure = ground arith;
  collected = ground arith;
  flushed = h.flushed;
}
Step-IsSound (skip_collector p d) h = record {
  place = ground arith;
  failure = h.failure;
  collected = h.collected;
  flushed = h.flushed;
}
Step-IsSound (close p) h = record {
  place = ground arith;
  failure = h.failure;
  collected = h.collected;
  flushed = h.flushed;
}
Step-IsSound (wait_flush e p d r) h = record {
  place = ground arith;
  failure = ground arith;
  collected = h.collected;
  flushed = ground arith;
}
Step-IsSound (skip_flush p d) h = record {
  place = ground arith;
  failure = h.failure;
  collected = h.collected;
  flushed = h.flushed;
}

pub Run-IsSound : {n : ℕ} {s : Service} → Run n s → IsSound s
Run-IsSound begin = record {
  place = refl;
  failure = refl;
  collected = λ h. absurd (cc h);
  flushed = λ h. absurd (cc h);
}
Run-IsSound (next r st) = Step-IsSound st (Run-IsSound r)

-- However the tasks end and wherever the context is cancelled: while the collector is at work, `ingest`
-- is open, so that no send meets a closed channel; and when runWithSource has returned, the context is
-- cancelled, `ingest` is closed, both results have been received, and the returned error is nil just
-- in case both results are.
pub Run-IsShutdown :
    {n : ℕ} {s : Service}
    → Run n s
    → (s.collector ≡ working → s.closed ≡ false)
      × (s.phase ≡ returned
          → (s.cancelled ≡ true)
            × (s.closed ≡ true)
            × (is_received s.collector ≡ true)
            × (is_received s.flush ≡ true)
            × (is_none s.run_err ≡ (no_failure s.collector && no_failure s.flush)))
Run-IsShutdown r =
    let h = Run-IsSound r in
    (
      (λ at_work. ground arith),
      (λ back. (ground arith, ground arith, ground arith, ground arith, h.failure)),
    )
