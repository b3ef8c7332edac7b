-- ===== src/Tests/Drops.antt =====
-- Counted drops through the flush stage, at concrete signals.
use ltm.Prelude.{◌+◌, ◌%◌, ◌≡◌, refl, false, List, [], ◌∷◌, none, some}
use ltm.Daemon.Conserves.{events_of}
use ltm.Daemon.Drops.{drops, greatest_count}
use ltm.Daemon.Drops.Runs.{flush_loop-drops}
use ltm.Daemon.Flush.{
  Batcher, Signal, append, drain_ready, event, flush, flush_loop, mark_dropped, run, start, step,
  tick, write_batch,
}
use ltm.Go.Time.{two_64}
use ltm.Storage.Event.{Event}
use ltm.Tests.Streams.{memory, small, write_ev}

abbrev counting_ev : Event
counting_ev = record write_ev { dropped_before = 5 }

abbrev counting : List Signal
counting = event write_ev ∷ event counting_ev ∷ tick false ∷ event write_ev ∷ tick false ∷ []

abbrev batcher : Batcher memory
batcher = record {
  batch = [];
  last_dropped = 1;
  calls = 2;
  store = write_ev ∷ counting_ev ∷ record write_ev { dropped_before = 1 } ∷ [];
}

stored : flush_loop {k = memory} small [] counting ≡ some (batcher, none)
unfolding append drain_ready flush flush_loop mark_dropped run start step write_batch
stored = refl

flush_loop-drops_example :
    drops batcher.store % two_64
    ≡ (drops [] + drops (events_of counting) + greatest_count small.dropped_fn batcher.calls)
      % two_64
flush_loop-drops_example = flush_loop-drops {k = memory} small [] counting stored
