-- ===== src/Agent/Generate.antt =====
-- internal/agent/agent.go: GenerateSQL and buildPrompt. The process that runs a command line is the
-- argument `run_command`.
use ltm.Prelude.{
  Bool, List, [], ◌∷◌, ◌++◌, Text, codes, is_empty, length, take, ltb, if◌then◌else◌, Result, ok,
  err, none, ◌≡◌, refl, Bool-cases, inl, inr,
}
use mathlib.Core.Path.{subst}
use ltm.Go.Strings.{trim_space}
use ltm.Agent.Extract.{Extracted, extract_sql, extract_sql-validated}
use ltm.Agent.Resolve.{Agent}
use ltm.Agent.SchemaDoc.{schema_doc_text}
use ltm.Agent.Validate.{Refusal, validate_read_only_sql}

-- What a process has written, and whether it failed.
pub record Finished : Type 0 where
  pub stdout : Text
  pub stderr : Text
  pub failed : Bool

pub data AgentError : Type 0 where
  failed_with : Text → AgentError
  refused : Refusal → AgentError

unfoldable pub build_prompt : Text → Text
unfolding schema_doc_text
build_prompt question =
    codes
      "Translate the question below into exactly one SQLite SELECT statement over this schema:\n"
    ++ codes "\n"
    ++ schema_doc_text
    ++ codes "\n"
    ++ codes "\n"
    ++ codes "Rules:\n"
    ++ codes "- Output only the SQL statement. No markdown fences, no explanation, no commentary.\n"
    ++ codes "- It must be a single SELECT (or WITH ... SELECT). The database is read-only.\n"
    ++ codes "- ts is unix nanoseconds; the current time is (unixepoch()*1000000000).\n"
    ++ codes "- Prefer ORDER BY ts DESC and add LIMIT 200 unless the question implies otherwise.\n"
    ++ codes "\n"
    ++ codes "Question: "
    ++ question

-- `argv[0]`, the other arguments and the prompt. The command line is not empty.
unfoldable pub command_line : Agent → Text → List Text
command_line a prompt = a.argv ++ prompt ∷ []

-- What a failed process has said, cut to 300 bytes.
abbrev pub cut_message : Text → Text
cut_message msg = if ltb 300 (length msg) then take 300 msg ++ codes "..." else msg

unfoldable pub failure_message : Finished → Text
unfolding trim_space
failure_message f =
    let said = trim_space f.stderr in
    cut_message (if is_empty said then trim_space f.stdout else said)

abbrev pub extracted : Extracted → Result AgentError Text
extracted (ltm.Agent.Extract.ok sql) = ok sql
extracted (ltm.Agent.Extract.err why) = err (refused why)

abbrev pub answered : Finished → Result AgentError Text
answered f =
    if f.failed then err (failed_with (failure_message f)) else extracted (extract_sql f.stdout)

unfoldable pub generate_sql : (List Text → Finished) → Agent → Text → Result AgentError Text
unfolding command_line build_prompt failure_message extract_sql
generate_sql run_command a question =
    answered (run_command (command_line a (build_prompt question)))

ok_text : {s t : Text} → extracted (ltm.Agent.Extract.ok s) ≡ ok t → s ≡ t
ok_text h = cc h

extracted-validated :
    (out : Text) (e : Extracted) {sql : Text}
    → extract_sql out ≡ e
    → extracted e ≡ ok sql
    → validate_read_only_sql sql ≡ none
extracted-validated out (ltm.Agent.Extract.ok s) same h =
    subst (λ t. validate_read_only_sql t ≡ none) (ok_text h) (extract_sql-validated out same)
extracted-validated out (ltm.Agent.Extract.err why) same h = absurd (cc h)

answered-validated :
    (f : Finished) {sql : Text} → answered f ≡ ok sql → validate_read_only_sql sql ≡ none
answered-validated f = elim (Bool-cases f.failed) [
  | inl e ↦ rw e (λ h. absurd (cc h))
  | inr e ↦ rw e (λ h. extracted-validated f.stdout (extract_sql f.stdout) refl h)
]

-- The statement of an agent, where there is one, has passed the guard of ExtractSQL.
pub generate_sql-validated :
    (run_command : List Text → Finished) (a : Agent) (question : Text) {sql : Text}
    → generate_sql run_command a question ≡ ok sql
    → validate_read_only_sql sql ≡ none
unfolding generate_sql
generate_sql-validated run_command a question h =
    answered-validated (run_command (command_line a (build_prompt question))) h
