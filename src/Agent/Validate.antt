-- ===== src/Agent/Validate.antt =====
-- `validateReadOnlySQL`. An error is the constructor for its message.
use ltm.Prelude.{
  ◌≡◌, ◌⊎◌, Bool, true, false, ◌∙◌, List, [], ◌∷◌, Text, Option, none, some, codes, arith,
  if◌then◌else◌, inl, inr, Bool-cases, text_eq, text_eq_iff, ap,
}
use ltm.Go.Strings.{to_upper, trim_left, is_space, has_prefix}
use ltm.SqlText.Machine.{plain, separated}
use ltm.SqlText.Sql.{sql_separated, sql_separated-separated}
use ltm.Agent.Keywords.{is_simple, is_simple-backquote, main_word}
use ltm.Agent.Keywords.Coded.{first}
use ltm.Agent.Keywords.Starters.{main_word-scan_top_level}
use ltm.Agent.Scan.{scan_top_level, scan_top_level-separated}

pub data Refusal : Type 0 where
  no_select multiple_statements non_select_statement not_a_select : Refusal

-- The first depth-0 starter of a WITH statement.
unfoldable pub first_is_select : List Text → Bool
first_is_select [] = false
first_is_select (w ∷ ws) = text_eq w (codes "SELECT")

unfoldable pub validate_read_only_sql : Text → Option Refusal
validate_read_only_sql sql =
    let head = to_upper (trim_left is_space sql) in
    let scan = scan_top_level sql in
    if scan.multi
    then some multiple_statements
    else if has_prefix head (codes "SELECT")
    then none
    else if has_prefix head (codes "WITH")
    then (if first_is_select scan.starters then none else some non_select_statement)
    else some not_a_select

-- A single statement that reads: nowhere a `;` outside quotes, brackets and comments; and it begins with
-- SELECT, or with WITH and its main statement with SELECT, in SQLite's reading.
pub record IsReadOnly (sql : Text) : Type 0 where
  pub no_separator : sql_separated (λ _. true) plain sql ≡ false
  pub select :
      (has_prefix (to_upper (trim_left is_space sql)) (codes "SELECT") ≡ true)
      ⊎ ((has_prefix (to_upper (trim_left is_space sql)) (codes "WITH") ≡ true)
          × (main_word sql ≡ some (codes "SELECT")))

not_separated :
    (hit : Text → Bool) (sql : Text)
    → (scan_top_level sql).multi ≡ false
    → separated hit plain sql ≡ false
not_separated hit sql m = elim (Bool-cases (separated hit plain sql)) [
  | inl e ↦ cc (scan_top_level-separated hit sql e)
  | inr e ↦ e
]

validate-cases :
    (sql : Text)
    → validate_read_only_sql sql ≡ none
    → ((scan_top_level sql).multi ≡ false)
      × ((has_prefix (to_upper (trim_left is_space sql)) (codes "SELECT") ≡ true)
          ⊎ ((has_prefix (to_upper (trim_left is_space sql)) (codes "WITH") ≡ true)
              × (first_is_select (scan_top_level sql).starters ≡ true)))
unfolding validate_read_only_sql
validate-cases sql h = ground arith

first_is_select-first :
    (ws : List Text) → first_is_select ws ≡ true → first ws ≡ some (codes "SELECT")
unfolding first_is_select
first_is_select-first [] h = absurd (cc h)
first_is_select-first (w ∷ ws) h = ap some ((text_eq_iff w (codes "SELECT")).0 h)

-- A simple statement that passes is a single one, and reads.
pub validate-IsReadOnly :
    (sql : Text) → is_simple sql ≡ true → validate_read_only_sql sql ≡ none → IsReadOnly sql
validate-IsReadOnly sql simple h =
    let parts = validate-cases sql h in
    record {
      no_separator =
          sql_separated-separated (λ _. true) plain sql (is_simple-backquote sql simple)
          ∙ not_separated (λ _. true) sql parts.0;
      select = elim parts.1 [
        | inl begins ↦ inl begins
        | inr (begins, starter) ↦ inr (
          begins,
          main_word-scan_top_level sql simple parts.0
              ∙ first_is_select-first (scan_top_level sql).starters starter,
        )
      ];
    }
