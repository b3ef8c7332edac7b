-- ===== src/Tests/Streams.antt =====
-- The flush stage and reports, at concrete inputs.
use ltm.Prelude.{
  ◌≡◌, refl, pos, true, false, List, [], ◌∷◌, ◌++◌, codes, Option, none, some, length, keep,
}
use ltm.Daemon.Conserves.{blank, events_of, Ended}
use ltm.Daemon.Ends.{flush_loop-Ended}
use ltm.Daemon.Flush.{Sink, Settings, Batcher, Signal, event, pause, tick, flush_loop}
use ltm.Diff.Lists.{IsSelected, report_of-IsSelected}
use ltm.Diff.Report.{report_of}
use ltm.Diff.Writers.{hot, hot_count, writes_to, hot_count-report_of}
use ltm.Storage.Event.{Event, Error, no_event}

abbrev start_ev : Event
start_ev = record no_event { category = codes "process"; action = codes "exec"; pid = pos 7 }

abbrev exit_ev : Event
exit_ev = record no_event { category = codes "process"; action = codes "exit"; pid = pos 7 }

abbrev pub write_ev : Event
write_ev = record no_event {
  category = codes "file";
  action = codes "write";
  path = codes "/a";
  pid = pos 7;
}

abbrev day : List Event
day = start_ev ∷ write_ev ∷ write_ev ∷ start_ev ∷ write_ev ∷ exit_ev ∷ []

-- A store that keeps everything.
abbrev pub memory : Sink
memory = record {
  State = List Event;
  stored = λ s. s;
  insert = λ s batch. (s ++ batch, none);
  insert_law = λ s batch e. refl;
  insert_error_law = λ s batch x e. absurd (cc);
}

abbrev pub small : Settings
small = record { batch_size = 2; max_batch = 3; dropped_fn = λ n. n }

abbrev signals : List Signal
signals =
    event start_ev
    ∷ pause
    ∷ event write_ev
    ∷ event write_ev
    ∷ tick false
    ∷ event write_ev
    ∷ tick true
    ∷ event exit_ev
    ∷ []

flush_loop-Ended_example :
    (r : Batcher memory × Option Error) × (flush_loop small [] signals ≡ some r)
    × Ended (blank (events_of signals)) r
flush_loop-Ended_example = flush_loop-Ended {k = memory} small [] signals

report_of-IsSelected_example : IsSelected day (report_of 0 9 day)
report_of-IsSelected_example = report_of-IsSelected 0 9 day

hot_count-report_of_example :
    hot_count (codes "/a") (report_of 0 9 day).hot_writers
    ≡ hot (length (keep (writes_to (codes "/a")) day))
hot_count-report_of_example = hot_count-report_of (codes "/a") 0 9 day
