-- ===== src/Cli/Root/Daemons.antt =====
-- The process that start starts is a daemon for the same store, pid file and ignore paths.
use mathlib.Core.Path.{subst}
use ltm.Prelude.{◌≡◌, refl, ap, ◌∙◌, ◌||◌, ℕ, List, [], ◌∷◌, ◌++◌, Text, codes, member, text_eq, ok}
use ltm.Abi.Build.{Disk}
use ltm.Go.FlagSet.{dashed, parse, parse_args}
use ltm.Go.Strings.{cut, strip_prefix}
use ltm.Cli.Flags.{
  Config, custom_ignore_paths, daemon_args, parse_global_flags, parse_bool, read_flag, split_flag,
  split_name,
}
use ltm.Cli.Arguments.{parse_daemon}
use ltm.Cli.Flags
use ltm.Cli.Maintain.{run_daemon, serve}
use ltm.Cli.Process.Stops.{Started, run_start-Started}
use ltm.Cli.Process.{Host, System, run_start}
use ltm.Cli.Root.{
  Routed, daemon, default_config, execute, invoke, passthrough, routed, run_with, runs, to_command,
}
use ltm.Cli.RoundTrip.{command, member-ignored, parse_global_flags-daemon_args}
use ltm.Storage.Open.{Files, open_store}

-- The configuration of the daemon that a parent with `cfg` starts.
abbrev pub daemon_config : Text → Config → Config
daemon_config home cfg = record (default_config home) {
  db_path = cfg.db_path;
  pid_file = cfg.pid_file;
  ignore_paths =
      (default_config home).ignore_paths
      ++ custom_ignore_paths (default_config home).ignore_paths cfg.ignore_paths;
}

abbrev pub foreground : List Text
foreground = codes "--foreground" ∷ []

-- The flag behind the command's name is no global one.
foreground_stays : (cfg : Config) → parse_global_flags foreground cfg ≡ ok (cfg, foreground)
unfolding parse_global_flags Flags.parse_from read_flag split_flag split_name cut strip_prefix
    text_eq
foreground_stays cfg = refl

module _ (route : Config → List Text → Routed) (home : Text) (cfg : Config) where
  execute-daemon_args :
      ((c : Config) → route c command ≡ to_command daemon foreground)
      → execute route home (daemon_args (default_config home).ignore_paths cfg)
        ≡ runs daemon (daemon_config home cfg) foreground
  unfolding execute
  execute-daemon_args routes =
      ap (routed route) (
        parse_global_flags-daemon_args (default_config home).ignore_paths cfg (default_config home))
      ∙ ap (invoke (daemon_config home cfg)) (routes (daemon_config home cfg))
      ∙ (unfold invoke passthrough in
          ap (run_with daemon) (foreground_stays (daemon_config home cfg)))

-- The daemon's options pass its own flag set, and it serves from the store of its configuration.
run_daemon-foreground :
    (f : Files) (cfg : Config)
    → run_daemon f cfg foreground ≡ serve cfg (open_store f cfg.db_path).result
unfolding run_daemon parse_daemon parse parse_args dashed cut strip_prefix text_eq parse_bool
run_daemon-foreground f cfg = refl

-- A daemon that a start has begun: its program's arguments, and what they make it do.
pub record IsDaemon (route : Config → List Text → Routed) (f : Files) (home : Text) (cfg : Config)
    (argv : List Text) : Type 0 where
  pub invoked : execute route home argv ≡ runs daemon (daemon_config home cfg) foreground
  pub served :
      run_daemon f (daemon_config home cfg) foreground
      ≡ serve (daemon_config home cfg) (open_store f cfg.db_path).result
  pub ignored :
      (p : Text)
      → member p (daemon_config home cfg).ignore_paths
        ≡ (member p (default_config home).ignore_paths || member p cfg.ignore_paths)

-- If cobra hands the arguments behind the word daemon to that command, and start returns no error, then
-- the one process that it has started, in the same home directory, runs the daemon command with the
-- parent's database and pid file; that daemon opens the parent's database for writing, and it ignores the
-- default paths and the parent's, and no others.
pub run_start-IsDaemon :
    {d : Disk} (sys : System d) (f : Files) (route : Config → List Text → Routed) (home : Text)
    (cfg : Config) (args : List Text) (h : Host d) {left : Host d} {pid : ℕ}
    → ((c : Config) → route c command ≡ to_command daemon foreground)
    → run_start sys (default_config home).ignore_paths cfg args h ≡ (left, ok pid)
    → (exe : Text) × (argv : List Text) × (left.started ≡ h.started ++ (pid, exe ∷ argv) ∷ [])
      × IsDaemon route f home cfg argv
run_start-IsDaemon sys f route home cfg args h {left} {pid} routes e =
    let s : Started sys (default_config home).ignore_paths cfg h (left, ok pid) =
      subst (Started sys (default_config home).ignore_paths cfg h) e
        (run_start-Started sys (default_config home).ignore_paths cfg h args) in
    (
      s.0,
      daemon_args (default_config home).ignore_paths cfg,
      s.1,
      record {
        invoked = execute-daemon_args route home cfg routes;
        served = run_daemon-foreground f (daemon_config home cfg);
        ignored = λ p. member-ignored (default_config home).ignore_paths p cfg.ignore_paths;
      },
    )
