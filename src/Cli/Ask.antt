-- ===== src/Cli/Ask.antt =====
-- internal/cli/commands_query.go: runQuery, runAgentQuery, runSQL, execReadOnlySQL and rowsToMaps, behind
-- the parsing of their flags; internal/cli/output.go: what they print is a value of Written.
pub mod Guards
use ltm.Prelude.{
  Bool, true, false, List, [], ◌∷◌, Text, codes, Option, none, some, is_empty, text_eq,
  if◌then◌else◌, Result, ok, err, ◌>>=◌, map,
}
use ltm.Go.Strings.{join, trim_space}
use ltm.Agent.Generate.{AgentError, Finished, generate_sql}
use ltm.Agent.Resolve.{Agent, Resolved, agent, no_agent, none_on_path, not_on_path, panic, resolve}
use ltm.Query.Engine.{QueryResult}
use ltm.Storage.Event.{Error}
use ltm.Storage.Raw.{Answer, raw_sql}
use ltm.Storage.Write.{Database, Store}

-- What the commands meet: exec.LookPath, the agents' processes, the store that OpenReadOnly gives, the
-- driver behind RawSQL, and the query engine over the store.
pub record World (d : Database) (Cell : Type 0) : Type 0 where
  pub on_path : Text → Bool
  pub run_command : List Text → Finished
  pub opened : Result Error (Store d)
  pub driver : Text → Result Error (Answer Cell)
  pub execute : Store d → Text → Result Error QueryResult

pub data AskError : Type 0 where
  no_question no_agent_on_path resolve_panic : AskError
  agent_not_on_path : Text → AskError
  store_error : Error → AskError

-- Why an agent's answer is given up for the templates.
pub data GivenUp : Type 0 where
  no_statement : AgentError → GivenUp
  not_opened : Error → GivenUp
  invalid_sql : Text → Error → Text → GivenUp

pub data Written (Cell : Type 0) : Type 0 where
  schema_help : Written Cell
  table : List Text → List (List Cell) → Written Cell
  json_rows : List Text → List (List Cell) → Written Cell
  agent_table : Text → Text → List Text → List (List Cell) → Written Cell
  agent_json : Text → Text → Text → List Text → List (List Cell) → Written Cell
  answer answer_json : QueryResult → Written Cell

-- The warning on stderr, if any, and what is written.
pub record Asked (Cell : Type 0) : Type 0 where
  pub warning : Option GivenUp
  pub outcome : Result AskError (Written Cell)

module _ {d : Database} {Cell : Type 0} (w : World d Cell) where
  abbrev pub written_rows : Bool → List Text × List (List Cell) → Written Cell
  written_rows json (columns, rows) = if json then json_rows columns rows else table columns rows

  abbrev pub sql_outcome :
      Bool → Result Error (List Text × List (List Cell)) → Result AskError (Written Cell)
  sql_outcome json (err e) = err (store_error e)
  sql_outcome json (ok out) = ok (written_rows json out)

  abbrev pub with_store : {A : Type 0} → (Store d → Result Error A) → Result Error A
  with_store f = w.opened >>= f

  unfoldable pub exec_read_only_sql : Bool → Text → Result AskError (Written Cell)
  unfolding raw_sql
  exec_read_only_sql json query = sql_outcome json (with_store (λ s. raw_sql w.driver s query))

  -- runSQL, and `query sql` with the words behind it.
  unfoldable pub run_sql : Bool → List Text → Result AskError (Written Cell)
  unfolding exec_read_only_sql join trim_space
  run_sql json words =
      let query = trim_space (join words (codes " ")) in
      if is_empty query then ok schema_help else exec_read_only_sql json query

  abbrev pub agent_rows :
      Bool
      → Text
      → Text
      → Text
      → Result Error (List Text × List (List Cell))
      → Result GivenUp (Written Cell)
  agent_rows json question name sql (err e) = err (invalid_sql name e sql)
  agent_rows json question name sql (ok (columns, rows)) = ok (
      if json then agent_json question name sql columns rows else agent_table name sql columns rows)

  abbrev pub agent_store :
      Bool → Text → Text → Text → Result Error (Store d) → Result GivenUp (Written Cell)
  agent_store json question name sql (err e) = err (not_opened e)
  agent_store json question name sql (ok s) =
      agent_rows json question name sql (raw_sql w.driver s sql)

  abbrev pub agent_answer :
      Bool → Text → Text → Result AgentError Text → Result GivenUp (Written Cell)
  agent_answer json question name (err e) = err (no_statement e)
  agent_answer json question name (ok sql) = agent_store json question name sql w.opened

  unfoldable pub run_agent_query : Agent → Text → Bool → Result GivenUp (Written Cell)
  unfolding raw_sql generate_sql
  run_agent_query a question json =
      agent_answer json question a.name (generate_sql w.run_command a question)

  abbrev pub template_outcome : Bool → Result Error QueryResult → Result AskError (Written Cell)
  template_outcome json (err e) = err (store_error e)
  template_outcome json (ok r) = ok (if json then answer_json r else answer r)

  -- The built-in templates.
  abbrev pub by_templates : Bool → Text → Result AskError (Written Cell)
  by_templates json question = template_outcome json (with_store (λ s. w.execute s question))

  abbrev pub silent : Result AskError (Written Cell) → Asked Cell
  silent r = record { warning = none; outcome = r }

  abbrev pub or_templates : Bool → Text → Result GivenUp (Written Cell) → Asked Cell
  or_templates json question (ok out) = silent (ok out)
  or_templates json question (err why) = record {
    warning = some why;
    outcome = by_templates json question;
  }

  abbrev pub by_agent : Bool → Text → Resolved → Asked Cell
  by_agent json question no_agent = silent (by_templates json question)
  by_agent json question none_on_path = silent (err no_agent_on_path)
  by_agent json question panic = silent (err resolve_panic)
  by_agent json question (not_on_path spec) = silent (err (agent_not_on_path spec))
  by_agent json question (agent a) = or_templates json question (run_agent_query a question json)

  unfoldable pub run_question : Text → Bool → Text → Asked Cell
  unfolding run_agent_query resolve
  run_question spec json question =
      if is_empty question
      then silent (err no_question)
      else by_agent json question (resolve w.on_path spec)

  -- runQuery: the value of --agent, that of --json, and the arguments.
  unfoldable pub run_query : Text → Bool → List Text → Asked Cell
  unfolding run_sql run_question text_eq join trim_space
  run_query spec json [] = run_question spec json []
  run_query spec json (word ∷ words) =
      if text_eq word (codes "sql")
      then silent (run_sql json words)
      else run_question spec json (trim_space (join (word ∷ words) (codes " ")))
