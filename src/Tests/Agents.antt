-- ===== src/Tests/Agents.antt =====
-- The agent's output and statements, at concrete inputs.
use ltm.Prelude.{◌≡◌, refl, Bool, [], ◌∷◌, Text, codes, member, some, none, true, false, text_eq}
use ltm.Agent.Extract.{
  begins_word, find_sql_start, fold, trimmed_statement, unfenced, extract_sql,
  extract_sql-IsReadOnly,
}
use ltm.Agent.Resolve.{IsRunnable, resolve, resolve-IsRunnable}
use ltm.Agent.Keywords.{main_word}
use ltm.Agent.Scan.{is_ident_part, scan_top_level}
use ltm.Agent.Validate.{first_is_select, IsReadOnly, validate_read_only_sql}
use ltm.Go.Strings.{cut, has_prefix, trim_space, trim_suffix}
use ltm.SqlText.Machine.{plain}
use ltm.SqlText.Sql.{sql_separated}
use ltm.Storage.Statements.{is_code, has_multiple_statements, has_multiple_statements-separated}

abbrev answer : Text
answer = codes "Here is it:\nSELECT 1;"

abbrev statement : Text
statement = codes "SELECT 1"

abbrev two_statements : Text
two_statements = codes "SELECT ';'; DELETE"

has_multiple_statements-separated_example :
    has_multiple_statements two_statements ≡ sql_separated is_code plain two_statements
has_multiple_statements-separated_example = has_multiple_statements-separated two_statements refl

extract_sql-IsReadOnly_example : IsReadOnly statement
unfolding extract_sql find_sql_start unfenced cut trim_space begins_word fold is_ident_part
    validate_read_only_sql scan_top_level trimmed_statement trim_suffix has_prefix
extract_sql-IsReadOnly_example = extract_sql-IsReadOnly answer refl refl

-- Between backquotes SQLite has an identifier, which neither guard tells apart.
missed :
    (has_multiple_statements (codes "SELECT `'`; DELETE FROM events -- '") ≡ false)
    × (sql_separated is_code plain (codes "SELECT `'`; DELETE FROM events -- '") ≡ true)
unfolding has_multiple_statements sql_separated is_code trim_space
missed = (refl, refl)

abbrev with_delete : Text
with_delete = codes "WITH `select` AS (SELECT 1) DELETE FROM events"

passes :
    (validate_read_only_sql with_delete ≡ none) × (main_word with_delete ≡ some (codes "DELETE"))
unfolding validate_read_only_sql scan_top_level has_prefix trim_space main_word text_eq
    first_is_select
passes = (refl, refl)

abbrev on_path : Text → Bool
on_path program = member program (codes "codex" ∷ [])

resolve-IsRunnable_example : IsRunnable on_path (resolve on_path (codes "auto"))
resolve-IsRunnable_example = resolve-IsRunnable on_path (codes "auto")
