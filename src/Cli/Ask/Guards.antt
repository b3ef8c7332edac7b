-- ===== src/Cli/Ask/Guards.antt =====
-- What stands behind the output of the commands `query` and `sql`.
use ltm.Prelude.{true, false, none, List, [], ◌∷◌, Text, codes, Result, ok, err, ◌≡◌}
use ltm.Go.Strings.{join, trim_space}
use ltm.Agent.Generate.{generate_sql}
use ltm.Agent.Resolve.{Agent, Resolved, agent}
use ltm.Agent.Validate.{validate_read_only_sql}
use ltm.Query.Engine.{QueryResult}
use ltm.Storage.Raw.{raw_sql}
use ltm.Storage.Statements.{has_multiple_statements}
use ltm.Storage.Write.{Database, Store}
use ltm.Cli.Ask.{
  AskError, GivenUp, World, Written, agent_json, agent_table, answer, answer_json, json_rows,
  schema_help, table,
}

module _ {d : Database} {Cell : Type 0} (w : World d Cell) where
  -- The rows that RawSQL gives for the query, which passes its guard, on a read-only store.
  abbrev pub FromSql : Text → List Text → List (List Cell) → Type 0
  FromSql sql columns rows =
      (s : Store d) × (w.opened ≡ ok s)
      × (s.is_read_only ≡ true)
      × (has_multiple_statements sql ≡ false)
      × (raw_sql w.driver s sql ≡ ok (columns, rows))

  -- The statement that the agent has generated for the question, which passes its guard.
  abbrev pub FromAgent : Resolved → Text → Text → Text → Type 0
  FromAgent r question name sql =
      (a : Agent) × (r ≡ agent a)
      × (a.name ≡ name)
      × (generate_sql w.run_command a question ≡ ok sql)
      × (validate_read_only_sql sql ≡ none)

  abbrev pub FromEngine : Text → QueryResult → Type 0
  FromEngine question r = (s : Store d) × (w.opened ≡ ok s) × (w.execute s question ≡ ok r)

  -- Where what is written comes from, for the SQL and the question that are asked, and the agent.
  abbrev pub IsFound : Text → Text → Resolved → Written Cell → Type 0
  IsFound asked question r schema_help = asked ≡ []
  IsFound asked question r (table columns rows) = FromSql asked columns rows
  IsFound asked question r (json_rows columns rows) = FromSql asked columns rows
  IsFound asked question r (agent_table name sql columns rows) =
      FromAgent r question name sql × FromSql sql columns rows
  IsFound asked question r (agent_json q name sql columns rows) =
      (q ≡ question) × FromAgent r question name sql × FromSql sql columns rows
  IsFound asked question r (answer a) = FromEngine question a
  IsFound asked question r (answer_json a) = FromEngine question a

  abbrev pub IsFoundOr : Text → Text → Resolved → Result AskError (Written Cell) → Type 0
  IsFoundOr asked question r (err e) = Unit
  IsFoundOr asked question r (ok out) = IsFound asked question r out

  module _ (asked question : Text) (a : Resolved) where
    abbrev IsFoundAgent : Result GivenUp (Written Cell) → Type 0
    IsFoundAgent (err e) = Unit
    IsFoundAgent (ok out) = IsFound asked question a out

  -- The SQL that `query sql` is asked to run: the words behind the first.
  abbrev pub asked_sql : List Text → Text
  asked_sql [] = []
  asked_sql (word ∷ words) = trim_space (join words (codes " "))
