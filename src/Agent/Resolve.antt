-- ===== src/Agent/Resolve.antt =====
-- `Resolve`: an agent's specification becomes a command line that is on PATH. `exec.LookPath` is the
-- argument `on_path`.
use ltm.Prelude.{
  ◌++◌, ◌≡◌, ◌≢◌, refl, Bool, true, false, List, [], ◌∷◌, Text, Option, none, some, codes, arith,
  is_empty, if◌then◌else◌, inl, inr, Bool-cases, text_eq,
}
use ltm.Go.Strings.{is_space, trim_left, trim_right, trim_func, trim_space, fields, fields_from}

pub record Agent : Type 0 where
  pub name : Text
  pub argv : List Text

abbrev pub known_agents : List Agent
known_agents =
    record { name = codes "claude"; argv = codes "claude" ∷ codes "-p" ∷ [] }
    ∷ record { name = codes "codex"; argv = codes "codex" ∷ codes "exec" ∷ [] }
    ∷ record { name = codes "cursor"; argv = codes "cursor-agent" ∷ codes "-p" ∷ [] }
    ∷ record { name = codes "gemini"; argv = codes "gemini" ∷ codes "-p" ∷ [] }
    ∷ []

-- The results of Resolve: no agent, an agent, an error, or the panic of `argv[0]` on no words.
pub data Resolved : Type 0 where
  no_agent none_on_path panic : Resolved
  agent : Agent → Resolved
  not_on_path : Text → Resolved

unfoldable pub known : Text → List Agent → Option Agent
known spec [] = none
known spec (a ∷ agents) = if text_eq spec a.name then some a else known spec agents

abbrev pub runs : (Text → Bool) → List Text → Bool
runs on_path [] = false
runs on_path (exe ∷ args) = on_path exe

-- The loop of `auto` over autoOrder, which has the same order as the table.
unfoldable pub first_on_path : (Text → Bool) → List Agent → Resolved
first_on_path on_path [] = none_on_path
first_on_path on_path (a ∷ agents) =
    if runs on_path a.argv then agent a else first_on_path on_path agents

unfoldable pub custom : (Text → Bool) → List Text → Resolved
custom on_path [] = panic
custom on_path (exe ∷ args) =
    if on_path exe then agent (record { name = exe; argv = exe ∷ args }) else not_on_path exe

abbrev known_or_custom : (Text → Bool) → Text → Option Agent → Resolved
known_or_custom on_path spec none = custom on_path (fields spec)
known_or_custom on_path spec (some a) = if runs on_path a.argv then agent a else not_on_path spec

unfoldable pub resolve_trimmed : (Text → Bool) → Text → Resolved
resolve_trimmed on_path spec =
    if is_empty spec
    then no_agent
    else if text_eq spec (codes "auto")
    then first_on_path on_path known_agents
    else known_or_custom on_path spec (known spec known_agents)

unfoldable pub resolve : (Text → Bool) → Text → Resolved
resolve on_path spec = resolve_trimmed on_path (trim_space spec)

abbrev HeadIsWord : Text → Type 0
HeadIsWord [] = Unit
HeadIsWord (c ∷ s) = is_space c ≡ false

trim_left-HeadIsWord : (s : Text) → HeadIsWord (trim_left is_space s)
unfolding trim_left
trim_left-HeadIsWord [] = tt
trim_left-HeadIsWord (c ∷ s) = elim (Bool-cases (is_space c)) [
  | inl e ↦ rw e (trim_left-HeadIsWord s)
  | inr e ↦ rw e e
]

trim_right-HeadIsWord : (s : Text) → HeadIsWord s → HeadIsWord (trim_right is_space s)
unfolding trim_right
trim_right-HeadIsWord [] h = tt
trim_right-HeadIsWord (c ∷ s) h = elim (Bool-cases (is_empty (trim_right is_space s))) [
  | inl e ↦ rw (e, h) h
  | inr e ↦ rw e h
]

trim_space-HeadIsWord : (s : Text) → HeadIsWord (trim_space s)
unfolding trim_space trim_func
trim_space-HeadIsWord s = trim_right-HeadIsWord (trim_left is_space s) (trim_left-HeadIsWord s)

fields_from-ne-nil : (cur s : Text) → is_empty cur ≡ false → fields_from cur s ≢ []
unfolding fields_from
fields_from-ne-nil cur [] h = ground arith
fields_from-ne-nil [] (c ∷ s) h = absurd (cc)
fields_from-ne-nil (d ∷ cur) (c ∷ s) h =
    ground (arith, fields_from-ne-nil (d ∷ cur ++ c ∷ []) s refl)

fields-ne-nil : (s : Text) → is_empty s ≡ false → HeadIsWord s → fields s ≢ []
unfolding fields fields_from
fields-ne-nil [] e h = absurd (cc)
fields-ne-nil (c ∷ s) e h = ground (arith, fields_from-ne-nil (c ∷ []) s refl)

-- An agent that is returned has its program on PATH, and no empty command line is indexed.
abbrev pub IsRunnable : (Text → Bool) → Resolved → Type 0
IsRunnable on_path (agent a) = runs on_path a.argv ≡ true
IsRunnable on_path panic = ⊥
IsRunnable on_path _ = Unit

custom-IsRunnable :
    (on_path : Text → Bool) (argv : List Text)
    → argv ≢ []
    → IsRunnable on_path (custom on_path argv)
unfolding custom
custom-IsRunnable on_path [] h = absurd (h refl)
custom-IsRunnable on_path (exe ∷ args) h = elim (Bool-cases (on_path exe)) [
  | inl e ↦ rw e e
  | inr e ↦ rw e tt
]

first_on_path-IsRunnable :
    (on_path : Text → Bool) (agents : List Agent)
    → IsRunnable on_path (first_on_path on_path agents)
unfolding first_on_path
first_on_path-IsRunnable on_path [] = tt
first_on_path-IsRunnable on_path (a ∷ agents) = elim (Bool-cases (runs on_path a.argv)) [
  | inl e ↦ rw e e
  | inr e ↦ rw e (first_on_path-IsRunnable on_path agents)
]

known_or_custom-IsRunnable :
    (on_path : Text → Bool) (spec : Text) (found : Option Agent)
    → fields spec ≢ []
    → IsRunnable on_path (known_or_custom on_path spec found)
known_or_custom-IsRunnable on_path spec none h = custom-IsRunnable on_path (fields spec) h
known_or_custom-IsRunnable on_path spec (some a) h = elim (Bool-cases (runs on_path a.argv)) [
  | inl e ↦ rw e e
  | inr e ↦ rw e tt
]

-- For every specification, an agent that Resolve returns has its program on PATH, and `argv[0]` is
-- never taken of a command line with no words.
pub resolve-IsRunnable :
    (on_path : Text → Bool) (spec : Text) → IsRunnable on_path (resolve on_path spec)
unfolding resolve resolve_trimmed
resolve-IsRunnable on_path spec = elim (Bool-cases (is_empty (trim_space spec))) [
  | inl e ↦ rw e tt
  | inr e ↦ rw e (elim (Bool-cases (text_eq (trim_space spec) (codes "auto"))) [
    | inl auto ↦ rw auto (first_on_path-IsRunnable on_path known_agents)
    | inr other ↦ rw other (
        known_or_custom-IsRunnable on_path (trim_space spec) (known (trim_space spec) known_agents)
          (fields-ne-nil (trim_space spec) e (trim_space-HeadIsWord spec)))
  ])
]
