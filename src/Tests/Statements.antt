-- ===== src/Tests/Statements.antt =====
-- Searches and raw statements, at concrete inputs.
use ltm.Prelude.{
  ℕ, ◌≡◌, refl, true, false, [], ◌∷◌, ◌++◌, Text, codes, none, some, leb, map, if◌then◌else◌,
  Result, ok, err,
}
use ltm.SqlText.Machine.{separated}
use ltm.Storage.Event.{Error, too_many_rows}
use ltm.Storage.Raw.Guarded.{raw_sql-answered}
use ltm.Storage.Raw.{max_raw_sql_rows, Answer, raw_sql}
use ltm.Storage.Search.Literal.{any_run, literal, tokens, tokens-like_pattern}
use ltm.Storage.Search.{like_pattern}
use ltm.Storage.Statements.{is_code}
use ltm.Storage.Write.{Store}
use ltm.Tests.Stores.{table}

tokens-like_pattern_example :
    tokens false (like_pattern (codes "50%_a\\"))
    ≡ some (any_run ∷ (map literal (codes "50%_a\\") ++ any_run ∷ []))
tokens-like_pattern_example = tokens-like_pattern (codes "50%_a\\")

abbrev pub one_query : Text
one_query = codes "SELECT ';';"

abbrev pub one_answer : Text → Result Error (Answer ℕ)
one_answer q = ok (record { columns = codes "n" ∷ []; rows = ok (7 ∷ []) ∷ []; rows_error = none })

abbrev pub reading : Store table
reading = record { db = some []; is_read_only = true }

raw_sql-answered_example :
    raw_sql one_answer reading one_query
    ≡ (if leb 1 max_raw_sql_rows then ok (codes "n" ∷ [], (7 ∷ []) ∷ []) else err too_many_rows)
unfolding separated is_code
raw_sql-answered_example =
    raw_sql-answered one_answer reading one_query (codes "n" ∷ []) ((7 ∷ []) ∷ []) refl refl refl
