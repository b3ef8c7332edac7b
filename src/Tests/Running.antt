-- ===== src/Tests/Running.antt =====
-- The commands on small stores and systems.
use ltm.Prelude.{
  ◌+◌, ◌≡◌, refl, pos, true, false, [], ◌∷◌, codes, none, some, text_eq, if◌then◌else◌, ok, err,
}
use ltm.Go.FlagSet.{not_defined}
use ltm.Go.Numbers.{atoi}
use ltm.Go.Time.{epoch, unix_nano}
use ltm.Cli.Arguments.{Readers, parse_query}
use ltm.Cli.Maintain.{
  bad_flags, bad_interval, needs_foreground, negative_count, run_benchmark, run_daemon, run_diff,
  run_prune, run_watch, unreadable_time,
}
use ltm.Cli.Process.{run_start, run_status, status_lines}
use ltm.Cli.Root.{version_text}
use ltm.Cli.Timeline.{Clock, no_time}
use ltm.Cli.Watch.Start.{WatchStore}
use ltm.Storage.Demo.{demo_event, demo_from}
use ltm.Storage.Open.{close_store, closed, empty_path}
use ltm.Storage.Totals.{no_status}
use ltm.Storage.Write.{finish_insert, insert_all, insert_event, insert_events, prune}
use ltm.Tests.Openings.{fresh}
use ltm.Tests.Processes.{parent, readers, running, unix_system}
use ltm.Tests.Reads.{timed}
use ltm.Tests.Stores.{opened_table}

-- A clock that reads durations as the first second of the epoch.
abbrev hours : Clock
hours = record {
  before = λ now text. if text_eq text (codes "720h") then some (epoch + 5) else none;
  parse_in = λ layout text. none;
}

reports_status :
    run_status unix_system parent [] (ok no_status) running
    ≡ ok (record { json = true; pid = pos 4242; alive = true; status = no_status })
unfolding run_status run_start
reports_status = refl

prints_status :
    status_lines
      (λ t. codes "-")
      (record { json = false; pid = pos 7; alive = false; status = no_status })
    ≡ codes "daemon: alive=false pid=7\nevents=0 dropped=0 last_event=-\n"
unfolding status_lines
prints_status = refl

benchmarks :
    (run_benchmark
      (ok opened_table)
      readers
      timed
      (epoch + 9)
      (codes "--count" ∷ codes "3" ∷ [])).report
    ≡ ok (3, 0)
unfolding run_benchmark insert_events insert_all insert_event finish_insert atoi demo_from
    demo_event
benchmarks = refl

refuses_count :
    (run_benchmark (ok opened_table) readers timed (epoch + 9) (codes "-count=-1" ∷ [])).report
    ≡ err negative_count
unfolding run_benchmark atoi
refuses_count = refl

prunes : (run_prune (ok opened_table) hours (epoch + 9) []).report ≡ ok (1, epoch + 5)
unfolding run_prune prune unix_nano
prunes = refl

prunes_nothing :
    (run_prune (ok opened_table) hours (epoch + 9) (codes "--older-than=x" ∷ [])).report
    ≡ err (unreadable_time (no_time (codes "x")))
unfolding run_prune
prunes_nothing = refl

refuses_flag :
    run_diff hours 7 8 parent (err empty_path) (codes "--last" ∷ [])
    ≡ err (bad_flags (not_defined (codes "last")))
unfolding run_diff
refuses_flag = refl

stays_attached : run_daemon fresh parent [] ≡ err needs_foreground
unfolding run_daemon
stays_attached = refl

abbrev nothing_stored : WatchStore
nothing_stored = record { query = λ f. ok []; latest_id = ok 0 }

abbrev seconds : Readers
seconds = record { parse_int = atoi; parse_duration = λ s. some (pos 0) }

refuses_interval :
    run_watch seconds hours 7
      (ok nothing_stored)
      (λ printed ev. none)
      []
      (codes "--interval" ∷ codes "0s" ∷ [])
    ≡ err (bad_interval (pos 0))
unfolding run_watch
refuses_interval = refl

keeps_words :
    parse_query parent [] (codes "-agent" ∷ codes "auto" ∷ codes "--" ∷ codes "--db" ∷ [])
    ≡ ok (record { json = true; agent = codes "auto" }, codes "--db" ∷ [])
unfolding parse_query
keeps_words = refl

closes_once : close_store (some (codes "file:///a")) ≡ (closed (codes "file:///a") ∷ [], none)
closes_once = refl

prints_version :
    version_text (record {
      version = codes "1";
      commit = codes "c";
      date = codes "d";
      go = codes "g";
      os = codes "linux";
      arch = codes "a";
    })
    ≡ codes "ltm 1\n  commit:  c\n  built:   d\n  go:      g\n  platform: linux/a\n"
unfolding version_text
prints_version = refl
