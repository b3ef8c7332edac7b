-- ===== src/Tests/Processes.antt =====
-- start, stop and the daemon, at a small system; and the flags of timeline.
use ltm.Prelude.{
  ◌≡◌, refl, pos, negsuc, true, List, [], ◌∷◌, ◌++◌, Text, codes, none, some, text_eq, arith, ok,
  err, if◌then◌else◌,
}
use ltm.Go.Numbers.{atoi, itoa}
use ltm.Cli.Arguments.Repeated.{parse_timeline-timeline_words, timeline_words}
use ltm.Cli.Arguments.{Readers, no_timeline, parse_timeline}
use ltm.Cli.Flags.{Config, daemon_args}
use ltm.Cli.Process.Stops.{Started, run_start-Started, run_stop-run_start}
use ltm.Cli.Process.{Host, System, answers, run_start, run_stop}
use ltm.Cli.Root.Daemons.{IsDaemon, run_start-IsDaemon}
use ltm.Cli.Root.{Routed, daemon, default_config, refused, to_command}
use ltm.Cli.Timeline.{TimelineFlags}
use ltm.Tests.Generators.{memory}
use ltm.Tests.Openings.{fresh}

abbrev pub unix_system : System memory
unix_system = record {
  make_directory = λ path. none;
  executable = ok (codes "/bin/ltm");
  spawn = λ argv. ok 4242;
  find_process = λ pid. none;
  terminate = λ pid. none;
  probe = λ pid. answers;
}

abbrev pub idle : Host memory
idle = record { files = λ path. err tt; started = []; killed = []; terminated = [] }

abbrev pub parent : Config
parent = record {
  db_path = codes "a.db";
  pid_file = codes "a.pid";
  json = true;
  ignore_paths = codes "/tmp" ∷ [];
}

abbrev pub home : Text
home = codes "/root"

abbrev pub ignored_there : List Text
ignored_there = (default_config home).ignore_paths

abbrev pub running : Host memory
running = (run_start unix_system ignored_there parent [] idle).0

start_runs : run_start unix_system ignored_there parent [] idle ≡ (running, ok 4242)
unfolding run_start
start_runs = refl

run_start-Started_example :
    Started unix_system ignored_there parent idle
      (run_start unix_system ignored_there parent [] idle)
run_start-Started_example = run_start-Started unix_system ignored_there parent idle []

run_stop-run_start_example :
    (run_stop unix_system parent [] running
      ≡ (record running { terminated = [] ++ pos 4242 ∷ [] }, ok (pos 4242)))
    × ((exe : Text) × (running.started ≡ [] ++ (4242, exe ∷ daemon_args ignored_there parent) ∷ []))
run_stop-run_start_example =
    run_stop-run_start unix_system ignored_there parent [] idle start_runs (omega arith) refl refl

-- cobra, for the arguments behind the name of the daemon command.
abbrev only_daemon : Config → List Text → Routed
only_daemon cfg [] = refused
only_daemon cfg (name ∷ args) =
    if text_eq name (codes "daemon") then to_command daemon args else refused

run_start-IsDaemon_example :
    (exe : Text) × (argv : List Text) × (running.started ≡ [] ++ (4242, exe ∷ argv) ∷ [])
    × IsDaemon only_daemon fresh home parent argv
unfolding text_eq
run_start-IsDaemon_example =
    run_start-IsDaemon unix_system fresh only_daemon home parent [] idle (λ c. refl) start_runs

abbrev pub readers : Readers
readers = record { parse_int = atoi; parse_duration = λ s. none }

abbrev asked : TimelineFlags
asked = record no_timeline {
  until = codes "-5m";
  limit = pos 12;
  pids = pos 7 ∷ negsuc 0 ∷ [];
  comms = codes "--limit" ∷ codes "cp" ∷ [];
}

reads_limit : atoi (itoa (pos 12)) ≡ some (pos 12)
unfolding atoi itoa
reads_limit = refl

parse_timeline-timeline_words_example :
    parse_timeline readers parent (timeline_words asked)
    ≡ ok (record { flags = asked; json = true }, [])
parse_timeline-timeline_words_example =
    parse_timeline-timeline_words readers parent asked reads_limit (omega arith) tt
