-- ===== src/Tests/Records.antt =====
-- From the collector to the table, at concrete arrivals.
use ltm.Prelude.{◌≡◌, refl, true, false, List, [], ◌∷◌, Option, none, some}
use ltm.Collector.Filter.{new_ignore_rules, normalize_ignore_rules, should_ignore_path}
use ltm.Collector.Run.{Arrival, arrived, collect, collect_from, done, drain, forward, with_room}
use ltm.Daemon.Conserves.{blank, events_of}
use ltm.Daemon.Flush.{Batcher, Settings, Signal, event, flush_loop, pause, tick}
use ltm.Daemon.Records.{Logged, flush_loop-Logged, table_sink}
use ltm.Storage.Event.{Error}
use ltm.Tests.Stores.{calls, event_one, event_two, opened_table, table}

abbrev settings : Settings
settings = record { batch_size = 2; max_batch = 3; dropped_fn = λ n. n }

abbrev arrivals : List Arrival
arrivals = arrived event_one true ∷ arrived event_two false ∷ done ∷ arrived event_two true ∷ []

abbrev received : List Signal
received = event event_one ∷ pause ∷ event event_two ∷ tick false ∷ []

same : events_of received ≡ (collect [] none arrivals).0.sent
unfolding collect collect_from drain forward new_ignore_rules normalize_ignore_rules
    should_ignore_path
same = refl

flush_loop-Logged_example :
    (r : Batcher (table_sink table calls) × Option Error) × (flush_loop settings
        (opened_table, [])
        received
      ≡ some r)
    × Logged calls opened_table (blank (with_room (new_ignore_rules []) true arrivals)) r
flush_loop-Logged_example =
    flush_loop-Logged calls opened_table settings [] none arrivals received same
