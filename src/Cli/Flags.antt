-- ===== src/Cli/Flags.antt =====
-- internal/cli/flags.go: parseGlobalFlags and daemonArgs. The default ignore paths, which depend on the
-- home directory, are the argument `defaults`. A list of arguments at position `i` is its rest.
use ltm.Prelude.{
  Bool, true, false, not, List, [], ◌∷◌, ◌++◌, Text, codes, Option, none, some, text_eq, member,
  keep, ◌==◌, if◌then◌else◌, Result, ok, err,
}
use ltm.Go.Strings.{cut}

pub record Config : Type 0 where
  pub db_path : Text
  pub pid_file : Text
  pub json : Bool
  pub ignore_paths : List Text

-- What splitFlag returns.
pub record Flag : Type 0 where
  pub name : Text
  pub value : Text
  pub has_value : Bool

abbrev pub no_flag : Flag
no_flag = record { name = []; value = []; has_value = false }

abbrev or_whole : Text → Option (Text × Text) → Flag
or_whole arg none = record { name = arg; value = []; has_value = false }
or_whole arg (some (before, after)) = record { name = before; value = after; has_value = true }

-- The text behind the dashes.
unfoldable pub split_name : Text → Flag
split_name [] = no_flag
split_name (c ∷ s) = or_whole (c ∷ s) (cut (c ∷ s) (codes "="))

unfoldable pub split_flag : Text → Flag
split_flag [] = no_flag
split_flag (c ∷ []) = no_flag
split_flag (c ∷ d ∷ s) =
    if c == b'-' then (if d == b'-' then split_name s else split_name (d ∷ s)) else no_flag

pub data FlagError : Type 0 where
  invalid_boolean : Text → FlagError
  needs_argument : Text → FlagError

-- The value of a flag, and whether it was the next argument.
unfoldable pub flag_value : List Text → Flag → Result FlagError (Text × Bool)
flag_value rest f = if f.has_value then ok (f.value, false) else next_value rest
  where
    next_value : List Text → Result FlagError (Text × Bool)
    next_value [] = err (needs_argument f.name)
    next_value (v ∷ rest) = ok (v, true)

-- strconv.ParseBool.
unfoldable pub parse_bool : Text → Option Bool
parse_bool s =
    if member s
      (codes "1" ∷ codes "t" ∷ codes "T" ∷ codes "TRUE" ∷ codes "true" ∷ codes "True" ∷ [])
    then some true
    else if member s
        (codes "0" ∷ codes "f" ∷ codes "F" ∷ codes "FALSE" ∷ codes "false" ∷ codes "False" ∷ [])
    then some false
    else none

-- One round of the loop: a flag was read, with the next argument or without; an error; or no global
-- flag, where the loop stops.
pub data Round : Type 0 where
  taken : Bool → Config → Round
  failed : FlagError → Round
  stopped : Round

abbrev pub json_of : Config → Text → Option Bool → Round
json_of cfg value none = failed (invalid_boolean value)
json_of cfg value (some b) = taken false (record cfg { json = b })

unfoldable pub read_json : Config → Flag → Round
read_json cfg f =
    if f.has_value
    then json_of cfg f.value (parse_bool f.value)
    else taken false (record cfg { json = true })

abbrev pub with_value : (Text → Config) → Result FlagError (Text × Bool) → Round
with_value set (err e) = failed e
with_value set (ok (v, skip)) = taken skip (set v)

-- The switch on the name.
unfoldable pub read_flag : Config → List Text → Flag → Round
read_flag cfg rest f =
    if text_eq f.name (codes "json")
    then read_json cfg f
    else if text_eq f.name (codes "db")
    then with_value (λ v. record cfg { db_path = v }) (flag_value rest f)
    else if text_eq f.name (codes "pidfile")
    then with_value (λ v. record cfg { pid_file = v }) (flag_value rest f)
    else if text_eq f.name (codes "ignore-path")
    then with_value (λ v. record cfg { ignore_paths = cfg.ignore_paths ++ v ∷ [] })
        (flag_value rest f)
    else stopped

-- The loop; `true` passes over an argument that was a flag's value.
unfoldable pub parse_from : Bool → Config → List Text → Result FlagError (Config × List Text)
parse_from skip cfg [] = ok (cfg, [])
parse_from true cfg (arg ∷ rest) = parse_from false cfg rest
parse_from false cfg (arg ∷ rest) = elim (read_flag cfg rest (split_flag arg)) [
  | taken skip read ↦ parse_from skip read rest
  | failed e ↦ err e
  | stopped ↦ ok (cfg, arg ∷ rest)
]

unfoldable pub parse_global_flags : List Text → Config → Result FlagError (Config × List Text)
parse_global_flags args cfg = parse_from false cfg args

-- The arguments of the custom ignore paths.
unfoldable pub ignore_args : List Text → List Text
ignore_args [] = []
ignore_args (path ∷ paths) = codes "--ignore-path" ∷ path ∷ ignore_args paths

module _ (defaults : List Text) where
  unfoldable pub custom_ignore_paths : List Text → List Text
  custom_ignore_paths paths = keep (λ path. not (member path defaults)) paths

  unfoldable pub daemon_args : Config → List Text
  daemon_args cfg =
      (codes "--db" ∷ cfg.db_path ∷ codes "--pidfile" ∷ cfg.pid_file ∷ [])
      ++ ignore_args (custom_ignore_paths cfg.ignore_paths)
      ++ codes "daemon" ∷ codes "--foreground" ∷ []
