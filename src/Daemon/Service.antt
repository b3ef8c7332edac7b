-- ===== src/Daemon/Service.antt =====
-- internal/daemon/service.go: NewService, and runWithSource as a step relation. The collector and the
-- flush stage are tasks that end with a result; what they do before is in Collector.Run and
-- Daemon.Flush. Each result goes through a channel with room for it, so no task waits for the service.
use ltm.Prelude.{
  ℕ, ◌+◌, ℤ, pos, Bool, true, false, List, Text, Option, none, some, leb_ℤ, if◌then◌else◌, ◌≡◌, ◌≢◌,
  ◌⊎◌,
}
use ltm.Storage.Event.{Error}

pub record ServiceConfig : Type 0 where
  pub ignore_paths : List Text
  pub batch_size : ℤ
  pub flush_period : ℤ

-- NewService: the configuration that it keeps. A period counts nanoseconds.
unfoldable pub with_defaults : ServiceConfig → ServiceConfig
with_defaults cfg = record cfg {
  batch_size = if leb_ℤ cfg.batch_size (pos 0) then pos 4096 else cfg.batch_size;
  flush_period = if leb_ℤ cfg.flush_period (pos 0) then pos 1000000000 else cfg.flush_period;
}

-- A goroutine: at work, with its result in the channel, or received.
pub data Task : Type 0 where
  working : Task
  ended received : Option Error → Task

-- Where runWithSource stands: at the select, at the wait for the collector, before close(ingest), at
-- the wait for the flush stage, and behind its return.
pub data Phase : Type 0 where
  selecting joining_collector closing joining_flush returned : Phase

pub record Service : Type 0 where
  pub phase : Phase
  pub cancelled : Bool
  pub collector : Task
  pub flush : Task
  pub closed : Bool
  pub col_done : Bool
  pub flush_done : Bool
  pub run_err : Option Error

abbrev pub started : Service
started = record {
  phase = selecting;
  cancelled = false;
  collector = working;
  flush = working;
  closed = false;
  col_done = false;
  flush_done = false;
  run_err = none;
}

-- `if e != nil && runErr == nil { runErr = e }`.
abbrev pub first_error : Option Error → Option Error → Option Error
first_error none e = e
first_error (some x) e = some x

-- The select's three cases, each with the cancel() behind it.
unfoldable pub on_cancel : Service → Service
on_cancel s = record s { phase = joining_collector; cancelled = true }

unfoldable pub on_collector : Service → Option Error → Service
on_collector s e = record s {
  phase = joining_collector;
  cancelled = true;
  collector = received e;
  col_done = true;
  run_err = e;
}

unfoldable pub on_flush : Service → Option Error → Service
on_flush s e = record s {
  phase = joining_collector;
  cancelled = true;
  flush = received e;
  flush_done = true;
  run_err = e;
}

unfoldable pub join_collector : Service → Option Error → Service
join_collector s e = record s {
  phase = closing;
  collector = received e;
  run_err = first_error s.run_err e;
}

unfoldable pub close_ingest : Service → Service
close_ingest s = record s { phase = joining_flush; closed = true }

unfoldable pub join_flush : Service → Option Error → Service
join_flush s e = record s {
  phase = returned;
  flush = received e;
  run_err = first_error s.run_err e;
}

-- The steps of the service, the caller's cancellation, and the ends of the tasks. The flush stage ends
-- without an error only when `ingest` is closed.
pub data Step (s : Service) : Service → Type 0 where
  cancel : s.cancelled ≡ false → Step s (record s { cancelled = true })
  collector_ends :
      (e : Option Error) → s.collector ≡ working → Step s (record s { collector = ended e })
  flush_ends :
      (e : Option Error)
      → s.flush ≡ working
      → (s.closed ≡ true) ⊎ (e ≢ none)
      → Step s (record s { flush = ended e })
  select_done : s.phase ≡ selecting → s.cancelled ≡ true → Step s (on_cancel s)
  select_collector :
      (e : Option Error) → s.phase ≡ selecting → s.collector ≡ ended e → Step s (on_collector s e)
  select_flush :
      (e : Option Error) → s.phase ≡ selecting → s.flush ≡ ended e → Step s (on_flush s e)
  wait_collector :
      (e : Option Error)
      → s.phase ≡ joining_collector
      → s.col_done ≡ false
      → s.collector ≡ ended e
      → Step s (join_collector s e)
  skip_collector :
      s.phase ≡ joining_collector → s.col_done ≡ true → Step s (record s { phase = closing })
  close : s.phase ≡ closing → Step s (close_ingest s)
  wait_flush :
      (e : Option Error)
      → s.phase ≡ joining_flush
      → s.flush_done ≡ false
      → s.flush ≡ ended e
      → Step s (join_flush s e)
  skip_flush :
      s.phase ≡ joining_flush → s.flush_done ≡ true → Step s (record s { phase = returned })

-- The states after so many steps.
pub data Run : ℕ → Service → Type 0 where
  begin : Run 0 started
  next : {n : ℕ} {s t : Service} → Run n s → Step s t → Run (n + 1) t
