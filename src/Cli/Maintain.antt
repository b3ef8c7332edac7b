-- ===== src/Cli/Maintain.antt =====
-- internal/cli/commands_runtime.go: runBenchmark, runPrune, runDaemon and runWatch, and runDiff of
-- commands_query.go, with their flags. A store that is opened is given by the result of its opening.
pub mod Tails
use ltm.Prelude.{
  ℕ, ℤ, pos, Bool, true, false, List, [], ◌∷◌, ◌++◌, Text, codes, Option, none, some, ltb_ℤ, leb_ℤ,
  length, Result, ok, err, ◌>>=◌,
}
use ltm.Go.FlagSet.{ParseError}
use ltm.Go.Numbers.{decimal}
use ltm.Go.Time.{Time}
use ltm.Cli.Arguments.{
  Readers, WatchArgs, parse_benchmark, parse_daemon, parse_diff, parse_prune, parse_watch,
}
use ltm.Cli.Flags.{Config}
use ltm.Cli.Timeline.{
  Clock, TimeError, TimelineError, bad_time, parse_duration_or_time, store_error,
}
use ltm.Cli.Watch.Start.{WatchStore, start_watch}
use ltm.Cli.Watch.{Watch, watch_predicate, watch_step}
use ltm.Daemon.Service.{ServiceConfig, with_defaults}
use ltm.Diff.Report.{DiffReport}
use ltm.Storage.Demo.{generate_demo_events}
use ltm.Storage.Event.{Error, Event}
use ltm.Storage.Open.{Connection, Files, OpenError, open_store}
use ltm.Storage.Write.{Calls, Database, Store, insert_events, prune}

pub data CommandError : Type 0 where
  bad_flags : ParseError → CommandError
  negative_count needs_foreground : CommandError
  bad_interval : ℤ → CommandError
  unreadable_time : TimeError → CommandError
  failed : Error → CommandError
  not_opened : OpenError → CommandError

abbrev pub parsed : {A : Type 0} → Result ParseError A → Result CommandError A
parsed (ok a) = ok a
parsed (err e) = err (bad_flags e)

abbrev pub stored : {A : Type 0} → Result Error A → Result CommandError A
stored (ok a) = ok a
stored (err e) = err (failed e)

abbrev pub timed : Result TimeError Time → Result CommandError Time
timed (ok t) = ok t
timed (err e) = err (unreadable_time e)

abbrev pub guard : Bool → CommandError → Result CommandError (Unit {0})
guard true e = ok tt
guard false e = err e

-- A store that was written to, and what the command reports.
pub record Kept (d : Database) (A : Type 0) : Type 0 where
  pub store : Option (Store d)
  pub report : Result CommandError A

abbrev pub untouched : {d : Database} {A : Type 0} → CommandError → Kept d A
untouched e = record { store = none; report = err e }

abbrev pub or_error : {A : Type 0} → A → Option Error → Result CommandError A
or_error a none = ok a
or_error a (some e) = err (failed e)

module _ {d : Database} (opened : Result OpenError (Store d)) where
  abbrev pub on_store : {A B : Type 0} → Result CommandError A → (A → Store d → Kept d B) → Kept d B
  on_store (err e) f = untouched e
  on_store (ok a) f = elim opened [ ok s ↦ f a s | err e ↦ untouched (not_opened e) ]

  -- The events of the benchmark, and those dropped; the times it measures are left out.
  abbrev pub benchmarked : Calls → Time → ℤ → Store d → Kept d (ℕ × ℕ)
  benchmarked c now count s =
      let events = generate_demo_events now count in
      let r = insert_events c s events in
      record { store = some r.store; report = or_error (length events, r.dropped) r.error }

  unfoldable pub run_benchmark : Readers → Calls → Time → List Text → Kept d (ℕ × ℕ)
  unfolding parse_benchmark generate_demo_events insert_events
  run_benchmark r c now args =
      on_store
        (do
          flags ← parsed (parse_benchmark r args)
          counted ← guard (leb_ℤ (pos 0) flags.0) negative_count
          ok flags.0)
        (benchmarked c now)

  -- How many events were pruned, and the cutoff.
  abbrev pub pruned_at : Bool → Store d → Result CommandError Time → Kept d (ℕ × Time)
  pruned_at vacuum s (err e) = record { store = some s; report = err e }
  pruned_at vacuum s (ok cutoff) =
      let r = prune s cutoff vacuum in
      record { store = some r.store; report = or_error (r.removed, cutoff) r.error }

  unfoldable pub run_prune : Clock → Time → List Text → Kept d (ℕ × Time)
  unfolding parse_prune prune parse_duration_or_time
  run_prune c now args = on_store (parsed (parse_prune args)) (λ flags s.
      pruned_at flags.0.vacuum s (timed (parse_duration_or_time c flags.0.older_than now)))

abbrev pub pruned_line : (Time → Text) → ℕ × Time → Text
pruned_line rfc3339 (n, cutoff) =
    codes "pruned "
    ++ (decimal n ++ (codes " events older than " ++ (rfc3339 cutoff ++ codes "\n")))

-- runDiff: the report, and whether it goes out as JSON. The clock is read for each of the two times. Its
-- fifth argument is OpenReadOnly with the engine's Diff.
unfoldable pub run_diff :
    Clock
    → Time
    → Time
    → Config
    → Result OpenError (Time → Time → Result Error DiffReport)
    → List Text
    → Result CommandError (Bool × DiffReport)
unfolding parse_diff parse_duration_or_time
run_diff c now later cfg (err e) args = do flags ← parsed (parse_diff cfg args); err (not_opened e)
run_diff c now later cfg (ok diff) args = do
  flags ← parsed (parse_diff cfg args)
  from ← timed (parse_duration_or_time c flags.0.from now)
  to ← timed (parse_duration_or_time c flags.0.to later)
  report ← stored (diff from to)
  ok (flags.0.json, report)

-- runDaemon up to the service's Run: what the opening gave, and the service's settings.
pub record Served : Type 0 where
  pub connection : Connection
  pub settings : ServiceConfig

abbrev pub serve : Config → Result OpenError Connection → Result CommandError Served
serve cfg (err e) = err (not_opened e)
serve cfg (ok c) = ok (record {
  connection = c;
  settings =
      with_defaults
        (record { ignore_paths = cfg.ignore_paths; batch_size = pos 0; flush_period = pos 0 });
})

unfoldable pub run_daemon : Files → Config → List Text → Result CommandError Served
unfolding parse_daemon with_defaults
run_daemon f cfg args = do
  flags ← parsed (parse_daemon cfg args)
  detached ← guard flags.0.foreground needs_foreground
  serve (record cfg { db_path = flags.0.db; pid_file = flags.0.pidfile })
      (open_store f flags.0.db).result

-- The loop of runWatch: one round for each tick until the context ends, with what EventsAfterID finds.
unfoldable pub watch_ticks :
    (Event → Bool)
    → (List Event → Event → Option Error)
    → List (ℕ → ℤ → Result Error (List Event))
    → ℤ
    → Watch
    → Watch × Option Error
unfolding watch_step
watch_ticks shown write [] limit w = (w, none)
watch_ticks shown write (fetch ∷ ticks) limit w =
    let (w', e) = watch_step shown write fetch limit w in
    elim e [ none ↦ watch_ticks shown write ticks limit w' | some x ↦ (w', some x) ]

abbrev pub begun : {A : Type 0} → Result TimelineError A → Result CommandError A
begun (ok a) = ok a
begun (err (bad_time e)) = err (unreadable_time e)
begun (err (store_error e)) = err (failed e)

abbrev pub opened_as : {A : Type 0} → Result OpenError A → Result CommandError A
opened_as (ok a) = ok a
opened_as (err e) = err (not_opened e)

-- The events that the flags of watch ask for.
abbrev pub shown_by : WatchArgs → Event → Bool
shown_by f = watch_predicate f.categories f.comms f.pids

-- What runWatch has printed when it returns, and the error that ended it.
unfoldable pub run_watch :
    Readers
    → Clock
    → Time
    → Result OpenError WatchStore
    → (List Event → Event → Option Error)
    → List (ℕ → ℤ → Result Error (List Event))
    → List Text
    → Result CommandError (Watch × Option Error)
unfolding parse_watch start_watch watch_ticks watch_predicate
run_watch r c now opened write ticks args = do
  flags ← parsed (parse_watch r args)
  positive ← guard (ltb_ℤ (pos 0) flags.0.interval) (bad_interval flags.0.interval)
  store ← opened_as opened
  w ← begun (start_watch (shown_by flags.0) c now store flags.0.since flags.0.limit)
  ok (watch_ticks (shown_by flags.0) write ticks flags.0.limit w)
