-- ===== src/Cli/Root.antt =====
-- internal/cli/cli.go: defaultConfig, Execute, newRootCmd and newPassthroughCmd; and printVersion of
-- output.go. The library cobra is the argument `route`: what it does with the arguments behind the global
-- flags, over the configuration that they have set.
pub mod Daemons
use ltm.Prelude.{
  Bool, true, false, List, [], ◌∷◌, ◌++◌, Text, codes, is_empty, if◌then◌else◌, Result, ok, err,
}
use ltm.Go.Filepath.{join_path}
use ltm.Cli.Flags.{Config, FlagError, parse_global_flags}

-- `home` is what os.UserHomeDir gives, empty where it fails.
abbrev home_or_dot : Text → Text
home_or_dot home = if is_empty home then codes "." else home

unfoldable pub default_config : Text → Config
unfolding join_path
default_config home = record {
  db_path =
      join_path
        (home_or_dot home ∷ codes ".local" ∷ codes "share" ∷ codes "ltm" ∷ codes "ltm.db" ∷ []);
  pid_file = join_path (home_or_dot home ∷ codes ".local" ∷ codes "run" ∷ codes "ltm.pid" ∷ []);
  json = false;
  ignore_paths =
      codes "/proc"
      ∷ codes "/sys"
      ∷ codes "/dev"
      ∷ join_path (home_or_dot home ∷ codes ".cache" ∷ [])
      ∷ join_path (home_or_dot home ∷ codes "Library" ∷ codes "Caches" ∷ [])
      ∷ [];
}

-- The subcommands of newPassthroughCmd.
pub data Command : Type 0 where
  start stop status timeline watch diff query benchmark daemon sql prune : Command

abbrev pub command_name : Command → Text
command_name start = codes "start"
command_name stop = codes "stop"
command_name status = codes "status"
command_name timeline = codes "timeline"
command_name watch = codes "watch"
command_name diff = codes "diff"
command_name query = codes "query"
command_name benchmark = codes "benchmark"
command_name daemon = codes "daemon"
command_name sql = codes "sql"
command_name prune = codes "prune"

-- What cobra calls: a subcommand with its arguments, whose flags it does not parse; the root's function
-- or that of `version`, behind the flags that it has parsed; or it refuses the arguments.
pub data Routed : Type 0 where
  to_command : Command → List Text → Routed
  to_root : Config → Bool → Routed
  to_version : Config → Routed
  refused : Routed

-- What is run in the end.
pub data Invoked : Type 0 where
  runs : Command → Config → List Text → Invoked
  shows_version : Bool → Invoked
  shows_help : Invoked
  bad_flag : FlagError → Invoked
  unknown : Invoked

-- The function of newPassthroughCmd.
abbrev pub run_with : Command → Result FlagError (Config × List Text) → Invoked
run_with c (err e) = bad_flag e
run_with c (ok (local, rest)) = runs c local rest

unfoldable pub passthrough : Command → Config → List Text → Invoked
unfolding parse_global_flags
passthrough c cfg args = run_with c (parse_global_flags args cfg)

unfoldable pub invoke : Config → Routed → Invoked
unfolding passthrough
invoke cfg (to_command c args) = passthrough c cfg args
invoke cfg (to_root parsed show_version) =
    if show_version then shows_version parsed.json else shows_help
invoke cfg (to_version parsed) = shows_version parsed.json
invoke cfg refused = unknown

module _ (route : Config → List Text → Routed) where
  abbrev pub routed : Result FlagError (Config × List Text) → Invoked
  routed (err e) = bad_flag e
  routed (ok (cfg, rest)) = invoke cfg (route cfg rest)

  unfoldable pub execute : Text → List Text → Invoked
  unfolding invoke parse_global_flags default_config
  execute home args = routed (parse_global_flags args (default_config home))

-- The build's variables, and those of package runtime.
pub record Build : Type 0 where
  pub version : Text
  pub commit : Text
  pub date : Text
  pub go : Text
  pub os : Text
  pub arch : Text

-- printVersion where the output is no JSON, and the map that is encoded else.
unfoldable pub version_text : Build → Text
version_text b =
    codes "ltm "
    ++ (b.version
        ++ (codes "\n  commit:  "
            ++ (b.commit
                ++ (codes "\n  built:   "
                    ++ (b.date
                        ++ (codes "\n  go:      "
                            ++ (b.go
                                ++ (codes "\n  platform: "
                                    ++ (b.os ++ (codes "/" ++ (b.arch ++ codes "\n")))))))))))

unfoldable pub version_map : Build → List (Text × Text)
version_map b =
    (codes "version", b.version)
    ∷ (codes "commit", b.commit)
    ∷ (codes "date", b.date)
    ∷ (codes "go", b.go)
    ∷ (codes "os", b.os)
    ∷ (codes "arch", b.arch)
    ∷ []
