-- ===== src/Cli/Arguments.antt =====
-- internal/cli/commands_runtime.go and commands_query.go: the flag sets of the commands, with
-- multiStringFlag and multiIntFlag of flags.go. What package flag reads by strconv.ParseInt with base 0
-- and by time.ParseDuration is an argument; a duration counts nanoseconds.
pub mod Repeated
use ltm.Prelude.{
  ℤ, pos, Bool, true, false, List, [], ◌∷◌, ◌++◌, Text, codes, Option, none, some, Result,
}
use ltm.Go.FlagSet.{ParseError, Spec, parse}
use ltm.Go.Numbers.{atoi}
use ltm.Cli.Flags.{Config, parse_bool}
use ltm.Cli.Timeline.{TimelineFlags}

pub record Readers : Type 0 where
  pub parse_int : Text → Option ℤ
  pub parse_duration : Text → Option ℤ

module _ {S : Type 0} where
  abbrev pub stored_by : {A : Type 0} → (A → S → S) → Option A → S → Option S
  stored_by put none s = none
  stored_by put (some a) s = some (put a s)

  abbrev pub string_flag : Text → (Text → S → S) → Spec S
  string_flag name put = record { name = name; is_bool = false; set = λ v s. some (put v s) }

  abbrev pub bool_flag : Text → (Bool → S → S) → Spec S
  bool_flag name put = record {
    name = name;
    is_bool = true;
    set = λ v. stored_by put (parse_bool v);
  }

  abbrev pub value_flag : {A : Type 0} → (Text → Option A) → Text → (A → S → S) → Spec S
  value_flag read name put = record {
    name = name;
    is_bool = false;
    set = λ v. stored_by put (read v);
  }

  -- multiIntFlag.
  abbrev pub ints_flag : Text → (ℤ → S → S) → Spec S
  ints_flag = value_flag atoi

pub record TimelineArgs : Type 0 where
  pub flags : TimelineFlags
  pub json : Bool

abbrev pub no_timeline : TimelineFlags
no_timeline = record {
  since = codes "1h";
  until = codes "now";
  limit = pos 200;
  pids = [];
  uids = [];
  categories = [];
  actions = [];
  comms = [];
  path_like = [];
  exe_like = [];
}

-- A change of the timeline's flags.
abbrev pub timeline_put : (TimelineFlags → TimelineFlags) → TimelineArgs → TimelineArgs
timeline_put f a = record a { flags = f a.flags }

abbrev pub timeline_specs : Readers → List (Spec TimelineArgs)
timeline_specs r =
    string_flag (codes "since") (λ v. timeline_put (λ f. record f { since = v }))
    ∷ string_flag (codes "until") (λ v. timeline_put (λ f. record f { until = v }))
    ∷ value_flag r.parse_int (codes "limit") (λ v. timeline_put (λ f. record f { limit = v }))
    ∷ bool_flag (codes "json") (λ v a. record a { json = v })
    ∷ string_flag (codes "path") (λ v. timeline_put (λ f. record f { path_like = v }))
    ∷ string_flag (codes "exe") (λ v. timeline_put (λ f. record f { exe_like = v }))
    ∷ ints_flag (codes "pid") (λ v. timeline_put (λ f. record f { pids = f.pids ++ v ∷ [] }))
    ∷ ints_flag (codes "uid") (λ v. timeline_put (λ f. record f { uids = f.uids ++ v ∷ [] }))
    ∷ string_flag (codes "category")
        (λ v. timeline_put (λ f. record f { categories = f.categories ++ v ∷ [] }))
    ∷ string_flag (codes "action")
        (λ v. timeline_put (λ f. record f { actions = f.actions ++ v ∷ [] }))
    ∷ string_flag (codes "comm") (λ v. timeline_put (λ f. record f { comms = f.comms ++ v ∷ [] }))
    ∷ []

unfoldable pub parse_timeline :
    Readers → Config → List Text → Result ParseError (TimelineArgs × List Text)
unfolding parse parse_bool atoi
parse_timeline r cfg = parse (timeline_specs r) (record { flags = no_timeline; json = cfg.json })

pub record WatchArgs : Type 0 where
  pub interval : ℤ
  pub since : Text
  pub limit : ℤ
  pub comms : List Text
  pub categories : List Text
  pub pids : List ℤ

abbrev pub watch_specs : Readers → List (Spec WatchArgs)
watch_specs r =
    value_flag r.parse_duration (codes "interval") (λ v a. record a { interval = v })
    ∷ string_flag (codes "since") (λ v a. record a { since = v })
    ∷ value_flag r.parse_int (codes "limit") (λ v a. record a { limit = v })
    ∷ string_flag (codes "comm") (λ v a. record a { comms = a.comms ++ v ∷ [] })
    ∷ ints_flag (codes "pid") (λ v a. record a { pids = a.pids ++ v ∷ [] })
    ∷ string_flag (codes "category") (λ v a. record a { categories = a.categories ++ v ∷ [] })
    ∷ []

unfoldable pub parse_watch : Readers → List Text → Result ParseError (WatchArgs × List Text)
unfolding parse atoi
parse_watch r = parse (watch_specs r) (record {
  interval = pos 1000000000;
  since = [];
  limit = pos 500;
  comms = [];
  categories = [];
  pids = [];
})

pub record DiffArgs : Type 0 where
  pub from : Text
  pub to : Text
  pub json : Bool

unfoldable pub parse_diff : Config → List Text → Result ParseError (DiffArgs × List Text)
unfolding parse parse_bool
parse_diff cfg =
    parse
      (string_flag (codes "from") (λ v a. record a { from = v })
        ∷ string_flag (codes "to") (λ v a. record a { to = v })
        ∷ bool_flag (codes "json") (λ v a. record a { json = v })
        ∷ [])
      (record { from = codes "1h"; to = codes "now"; json = cfg.json })

pub record QueryArgs : Type 0 where
  pub json : Bool
  pub agent : Text

-- `agent` is the value of LTM_AGENT.
unfoldable pub parse_query : Config → Text → List Text → Result ParseError (QueryArgs × List Text)
unfolding parse parse_bool
parse_query cfg agent =
    parse
      (bool_flag (codes "json") (λ v a. record a { json = v })
        ∷ string_flag (codes "agent") (λ v a. record a { agent = v })
        ∷ [])
      (record { json = cfg.json; agent = agent })

-- status and sql.
unfoldable pub parse_json : Config → List Text → Result ParseError (Bool × List Text)
unfolding parse parse_bool
parse_json cfg = parse (bool_flag (codes "json") (λ v a. v) ∷ []) cfg.json

-- start has no flag.
unfoldable pub parse_start : List Text → Result ParseError (Unit {0} × List Text)
unfolding parse
parse_start = parse [] tt

unfoldable pub parse_benchmark : Readers → List Text → Result ParseError (ℤ × List Text)
unfolding parse
parse_benchmark r = parse (value_flag r.parse_int (codes "count") (λ v a. v) ∷ []) (pos 1000)

pub record PruneArgs : Type 0 where
  pub older_than : Text
  pub vacuum : Bool

unfoldable pub parse_prune : List Text → Result ParseError (PruneArgs × List Text)
unfolding parse parse_bool
parse_prune =
    parse
      (string_flag (codes "older-than") (λ v a. record a { older_than = v })
        ∷ bool_flag (codes "vacuum") (λ v a. record a { vacuum = v })
        ∷ [])
      (record { older_than = codes "720h"; vacuum = false })

pub record DaemonArgs : Type 0 where
  pub foreground : Bool
  pub db : Text
  pub pidfile : Text

unfoldable pub parse_daemon : Config → List Text → Result ParseError (DaemonArgs × List Text)
unfolding parse parse_bool
parse_daemon cfg =
    parse
      (bool_flag (codes "foreground") (λ v a. record a { foreground = v })
        ∷ string_flag (codes "db") (λ v a. record a { db = v })
        ∷ string_flag (codes "pidfile") (λ v a. record a { pidfile = v })
        ∷ [])
      (record { foreground = false; db = cfg.db_path; pidfile = cfg.pid_file })
