-- ===== src/Cli/RoundTrip.antt =====
-- The daemon that is started with daemonArgs reads back the configuration, and parsing stops at the
-- first argument that is no global flag.
use ltm.Prelude.{
  ◌≡◌, refl, sym, ap, ◌∙◌, Bool, true, false, not, ◌&&◌, ◌||◌, List, [], ◌∷◌, ◌++◌, Text, codes,
  Option, none, some, text_eq, text_eq_iff, member, any, append_assoc, append-nil, arith,
  Bool-cases, inl, inr, Result, ok, err,
}
use mathlib.Core.Path.{subst}
use ltm.Go.Strings.{cut}
use ltm.Cli.Flags.{
  Config, Flag, FlagError, Round, taken, failed, stopped, split_name, split_flag, flag_value,
  read_flag, read_json, json_of, parse_bool, with_value, parse_from, parse_global_flags,
  custom_ignore_paths, ignore_args, daemon_args,
}

abbrev pub command : List Text
command = codes "daemon" ∷ codes "--foreground" ∷ []

parse_from-ignore_args :
    (paths : List Text) (cfg : Config)
    → parse_from false cfg (ignore_args paths ++ command)
      ≡ ok (record cfg { ignore_paths = cfg.ignore_paths ++ paths }, command)
unfolding parse_from ignore_args read_flag split_flag split_name cut flag_value text_eq
parse_from-ignore_args [] cfg =
    ap (λ ps. ok (record cfg { ignore_paths = ps }, command)) (sym (append-nil cfg.ignore_paths))
parse_from-ignore_args (path ∷ paths) cfg =
    parse_from-ignore_args paths (record cfg { ignore_paths = cfg.ignore_paths ++ path ∷ [] })
    ∙ ap (λ ps. ok (record cfg { ignore_paths = ps }, command))
        (append_assoc cfg.ignore_paths (path ∷ []) paths)

-- What the started daemon parses from the arguments of daemonArgs, over any configuration of its own:
-- the database, the pid file, and its ignore paths with the custom ones behind them; and the rest is
-- its command.
pub parse_global_flags-daemon_args :
    (defaults : List Text) (cfg base : Config)
    → parse_global_flags (daemon_args defaults cfg) base
      ≡ ok (
        record base {
          db_path = cfg.db_path;
          pid_file = cfg.pid_file;
          ignore_paths = base.ignore_paths ++ custom_ignore_paths defaults cfg.ignore_paths;
        },
        command,
      )
unfolding parse_global_flags daemon_args parse_from read_flag split_flag split_name cut flag_value
    text_eq
parse_global_flags-daemon_args defaults cfg base =
    parse_from-ignore_args (custom_ignore_paths defaults cfg.ignore_paths) _

member-append : (p : Text) (xs ys : List Text) → member p (xs ++ ys) ≡ (member p xs || member p ys)
member-append p [] ys = refl
member-append p (x ∷ xs) ys = ground (arith, member-append p xs ys)

member-custom_ignore_paths :
    (defaults : List Text) (p : Text) (paths : List Text)
    → member p (custom_ignore_paths defaults paths) ≡ (member p paths && not (member p defaults))
unfolding custom_ignore_paths
member-custom_ignore_paths defaults p [] = refl
member-custom_ignore_paths defaults p (path ∷ paths) = elim (Bool-cases (text_eq path p)) [
  | inl e ↦ ground (
    arith,
    e,
    ap (λ x. member x defaults) ((text_eq_iff path p).0 e),
    member-custom_ignore_paths defaults p paths,
  )
  | inr e ↦ ground (arith, e, member-custom_ignore_paths defaults p paths)
]

-- A daemon that starts from the default ignore paths ignores by the paths of the parent's
-- configuration and the default ones, and by no others.
pub member-ignored :
    (defaults : List Text) (p : Text) (paths : List Text)
    → member p (defaults ++ custom_ignore_paths defaults paths)
      ≡ (member p defaults || member p paths)
member-ignored defaults p paths = ground (
  arith,
  member-append p defaults (custom_ignore_paths defaults paths),
  member-custom_ignore_paths defaults p paths,
)

abbrev globals : List Text
globals = codes "json" ∷ codes "db" ∷ codes "pidfile" ∷ codes "ignore-path" ∷ []

-- No global flag stands at the head.
abbrev pub IsCommand : List Text → Type 0
IsCommand [] = Unit
IsCommand (arg ∷ rest) = any (text_eq (split_flag arg).name) globals ≡ false

with_value_goes_on :
    (set : Text → Config) (r : Result FlagError (Text × Bool)) → with_value set r ≡ stopped → ⊥
with_value_goes_on set (err e) h = cc
with_value_goes_on set (ok (v, skip)) h = cc

read_json_goes_on : (cfg : Config) (f : Flag) → read_json cfg f ≡ stopped → ⊥
unfolding read_json
read_json_goes_on cfg f = elim (Bool-cases f.has_value) [
  | inl e ↦ rw e (json (parse_bool f.value))
  | inr e ↦ rw e (λ h. cc)
]
  where
    json : (b : Option Bool) → json_of cfg f.value b ≡ stopped → ⊥
    json none h = cc
    json (some b) h = cc

stopped-IsCommand :
    (cfg : Config) (rest : List Text) (f : Flag)
    → read_flag cfg rest f ≡ stopped
    → any (text_eq f.name) globals ≡ false
unfolding read_flag
stopped-IsCommand cfg rest f = elim (Bool-cases (text_eq f.name (codes "json"))) [
  | inl e ↦ rw e (λ h. absurd (read_json_goes_on cfg f h))
  | inr e ↦ elim (Bool-cases (text_eq f.name (codes "db"))) [
    | inl e1 ↦ rw (e, e1) (λ h. absurd (with_value_goes_on _ _ h))
    | inr e1 ↦ elim (Bool-cases (text_eq f.name (codes "pidfile"))) [
      | inl e2 ↦ rw (e, e1, e2) (λ h. absurd (with_value_goes_on _ _ h))
      | inr e2 ↦ elim (Bool-cases (text_eq f.name (codes "ignore-path"))) [
        | inl e3 ↦ rw (e, e1, e2, e3) (λ h. absurd (with_value_goes_on _ _ h))
        | inr e3 ↦ rw (e, e1, e2, e3) (λ h. refl)
      ]
    ]
  ]
]

abbrev rest_of : Result FlagError (Config × List Text) → List Text
rest_of (err e) = []
rest_of (ok (cfg, rest)) = rest

-- What is left of the arguments.
pub record IsRest (args rest : List Text) : Type 0 where
  pub read : List Text
  pub split : args ≡ read ++ rest
  pub is_command : IsCommand rest

parse_from-IsRest :
    (skip : Bool) (cfg : Config) (args : List Text) {read : Config} {rest : List Text}
    → parse_from skip cfg args ≡ ok (read, rest)
    → IsRest args rest
unfolding parse_from
parse_from-IsRest true cfg [] h = record {
  read = [];
  split = ap rest_of h;
  is_command = subst IsCommand (ap rest_of h) tt;
}
parse_from-IsRest false cfg [] h = record {
  read = [];
  split = ap rest_of h;
  is_command = subst IsCommand (ap rest_of h) tt;
}
parse_from-IsRest true cfg (arg ∷ args) h =
    let r = parse_from-IsRest false cfg args h in
    record { read = arg ∷ r.read; split = ap (◌∷◌ arg) r.split; is_command = r.is_command }
parse_from-IsRest false cfg (arg ∷ args) {read} {rest} h =
    go (read_flag cfg args (split_flag arg)) refl h (λ s c. parse_from-IsRest s c args)
  where
    go :
        (r : Round)
        → read_flag cfg args (split_flag arg) ≡ r
        → elim r [
          | taken skip c ↦ parse_from skip c args
          | failed e ↦ err e
          | stopped ↦ ok (cfg, arg ∷ args)
        ]
          ≡ ok (read, rest)
        → ((s : Bool) (c : Config) → parse_from s c args ≡ ok (read, rest) → IsRest args rest)
        → IsRest (arg ∷ args) rest
    go (taken s c) e h again =
        let r = again s c h in
        record { read = arg ∷ r.read; split = ap (◌∷◌ arg) r.split; is_command = r.is_command }
    go (failed x) e h again = absurd (cc)
    go stopped e h again = record {
      read = [];
      split = ap rest_of h;
      is_command = subst IsCommand (ap rest_of h) (stopped-IsCommand cfg args (split_flag arg) e);
    }

-- Where parsing succeeds, what it leaves is a last part of the arguments that does not begin with a
-- global flag.
parse_global_flags-IsRest :
    (cfg : Config) (args : List Text) {read : Config} {rest : List Text}
    → parse_global_flags args cfg ≡ ok (read, rest)
    → IsRest args rest
unfolding parse_global_flags
parse_global_flags-IsRest cfg args h = parse_from-IsRest false cfg args h
