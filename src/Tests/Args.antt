-- ===== src/Tests/Args.antt =====
-- Global flags, at concrete arguments.
use ltm.Prelude.{◌≡◌, true, false, List, [], ◌∷◌, ◌++◌, Text, codes, ok}
use ltm.Cli.Flags.{Config, parse_global_flags, custom_ignore_paths, daemon_args}
use ltm.Cli.RoundTrip.{command, parse_global_flags-daemon_args}

abbrev builtin : List Text
builtin = codes "/proc" ∷ codes "/sys" ∷ []

abbrev config : Config
config = record {
  db_path = codes "a.db";
  pid_file = codes "a.pid";
  json = true;
  ignore_paths = codes "/sys" ∷ codes "/tmp" ∷ [];
}

abbrev base : Config
base = record { db_path = []; pid_file = []; json = false; ignore_paths = builtin }

parse_global_flags-daemon_args_example :
    parse_global_flags (daemon_args builtin config) base
    ≡ ok (
      record base {
        db_path = codes "a.db";
        pid_file = codes "a.pid";
        ignore_paths = builtin ++ custom_ignore_paths builtin config.ignore_paths;
      },
      command,
    )
parse_global_flags-daemon_args_example = parse_global_flags-daemon_args builtin config base

abbrev arguments : List Text
arguments = codes "-json" ∷ codes "--db=x" ∷ codes "query" ∷ codes "--db" ∷ []
