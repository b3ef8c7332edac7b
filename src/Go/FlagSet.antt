-- ===== src/Go/FlagSet.antt =====
-- Go's package flag: FlagSet.Parse with ContinueOnError. A flag set is a list of flags over the record
-- of its values; the first argument that is no flag, or the one behind `--`, begins the rest.
use ltm.Prelude.{
  ◌≡◌, refl, Bool, true, false, ◌||◌, List, [], ◌∷◌, Text, codes, Option, none, some, is_empty,
  text_eq, ◌==◌, if◌then◌else◌, Result, ok, err,
}
use ltm.Go.Strings.{cut}

-- A flag: its name, whether it is a boolean one, and Set, where `none` is an error of the value.
pub record Spec (S : Type 0) : Type 0 where
  pub name : Text
  pub is_bool : Bool
  pub set : Text → S → Option S

pub data ParseError : Type 0 where
  bad_syntax not_defined : Text → ParseError
  help : ParseError
  bad_value : Text → Text → ParseError
  needs_value : Text → ParseError

-- The text behind the dashes of an argument; or it is no flag, or it is `--`.
pub data Dashed : Type 0 where
  no_flag end_of_flags : Dashed
  flag : Text → Dashed

unfoldable pub dashed : Text → Dashed
dashed [] = no_flag
dashed (c ∷ []) = no_flag
dashed (c ∷ d ∷ s) =
    if c == b'-'
    then (if d == b'-' then (if is_empty s then end_of_flags else flag s) else flag (d ∷ s))
    else no_flag

abbrev begins_badly : Text → Bool
begins_badly [] = true
begins_badly (c ∷ s) = c == b'-' || c == b'='

-- One argument is the rest's first, ends the flags, is taken with its successor or alone, or fails.
pub data Taken (S : Type 0) : Type 0 where
  stops ends : Taken S
  alone with_next : S → Taken S
  fails : ParseError → Taken S

module _ {S : Type 0} where
  abbrev pub find : Text → List (Spec S) → Option (Spec S)
  find name [] = none
  find name (f ∷ fs) = if text_eq f.name name then some f else find name fs

  abbrev pub set_or : (S → Taken S) → Text → Text → Option S → Taken S
  set_or taken name value none = fails (bad_value name value)
  set_or taken name value (some s) = taken s

  abbrev pub set_to : (S → Taken S) → Spec S → Text → S → Taken S
  set_to taken f value s = set_or taken f.name value (f.set value s)

  abbrev pub take_next : Spec S → List Text → S → Taken S
  take_next f [] s = fails (needs_value f.name)
  take_next f (value ∷ rest) s = set_to with_next f value s

  abbrev pub take_bare : Spec S → List Text → S → Taken S
  take_bare f rest s = if f.is_bool then set_to alone f (codes "true") s else take_next f rest s

  abbrev pub not_found : Text → Taken S
  not_found name =
      if text_eq name (codes "help") || text_eq name (codes "h")
      then fails help
      else fails (not_defined name)

  abbrev pub take_found : Text → Option Text → List Text → S → Option (Spec S) → Taken S
  take_found name value rest s none = not_found name
  take_found name none rest s (some f) = take_bare f rest s
  take_found name (some value) rest s (some f) = set_to alone f value s

  module _ (specs : List (Spec S)) where
    abbrev pub take_parted : List Text → S → Text → Option (Text × Text) → Taken S
    take_parted rest s name none = take_found name none rest s (find name specs)
    take_parted rest s name (some (before, value)) =
        take_found before (some value) rest s (find before specs)

    abbrev pub take_dashed : List Text → S → Dashed → Taken S
    take_dashed rest s no_flag = stops
    take_dashed rest s end_of_flags = ends
    take_dashed rest s (flag name) =
        if begins_badly name
        then fails (bad_syntax name)
        else take_parted rest s name (cut name (codes "="))

    -- The loop; `true` passes over an argument that was a flag's value.
    unfoldable pub parse_args : Bool → S → List Text → Result ParseError (S × List Text)
    unfolding dashed cut text_eq
    parse_args skip s [] = ok (s, [])
    parse_args true s (arg ∷ rest) = parse_args false s rest
    parse_args false s (arg ∷ rest) = elim (take_dashed rest s (dashed arg)) [
      | stops ↦ ok (s, arg ∷ rest)
      | ends ↦ ok (s, rest)
      | alone t ↦ parse_args false t rest
      | with_next t ↦ parse_args true t rest
      | fails e ↦ err e
    ]

    unfoldable pub parse : S → List Text → Result ParseError (S × List Text)
    unfolding parse_args
    parse s args = parse_args false s args

parses :
    parse
      (record { name = codes "n"; is_bool = false; set = λ v _. some v } ∷ [])
      []
      (codes "-n" ∷ codes "3" ∷ codes "--n=4" ∷ codes "x" ∷ [])
    ≡ ok (codes "4", codes "x" ∷ [])
unfolding parse
parses = refl
