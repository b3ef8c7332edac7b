-- ===== src/Tests/Commands.antt =====
-- The commands `query` and `timeline` over small worlds.
use ltm.Prelude.{
  Bool, none, text_eq, ◌==◌, ℕ, true, false, List, [], ◌∷◌, Text, codes, some, ok, ◌≡◌, refl, pos,
}
use ltm.Agent.Extract.{begins_word, find_sql_start, fold, trimmed_statement, unfenced}
use ltm.Agent.Resolve.{known, resolve_trimmed}
use ltm.Agent.Scan.{is_ident_part, scan_top_level}
use ltm.Agent.Validate.{validate_read_only_sql}
use ltm.Go.Strings.{cut, has_prefix, trim_suffix}
use ltm.Storage.Raw.{raw_rows}
use ltm.Storage.Statements.{has_multiple_statements}
use ltm.Cli.Ask.{World, agent_table, run_query}
use ltm.Cli.Output.{format_event, null, other, rows_to_maps, table_text}
use ltm.Cli.Watch.Start.{WatchStore}
use ltm.Cli.Timeline.{Clock, oldest_first}
use ltm.Go.Time.{Time}
use ltm.Storage.Event.{Event, no_event}
use ltm.Tests.Statements.{one_answer, reading}
use ltm.Tests.Stores.{table}

abbrev world : World table ℕ
world = record {
  on_path = λ program. true;
  run_command =
      λ words. record { stdout = codes "SELECT pid FROM events;"; stderr = []; failed = false };
  opened = ok reading;
  driver = one_answer;
  execute = λ s question. ok (record { title = question; rows = [] });
}

asks :
    (run_query world (codes "claude") false (codes "which" ∷ codes "pids?" ∷ [])).outcome
    ≡ ok (
        agent_table
          (codes "claude")
          (codes "SELECT pid FROM events")
          (codes "n" ∷ [])
          ((7 ∷ []) ∷ []))
unfolding run_query resolve_trimmed known find_sql_start unfenced cut begins_word fold is_ident_part
    validate_read_only_sql scan_top_level trimmed_statement trim_suffix has_prefix
    has_multiple_statements raw_rows
asks = refl

abbrev numbered : ℕ → Event
numbered n = record no_event { id = n }

abbrev three : List Event
three = numbered 3 ∷ numbered 2 ∷ numbered 1 ∷ []

oldest : oldest_first three ≡ numbered 1 ∷ numbered 2 ∷ numbered 3 ∷ []
unfolding oldest_first
oldest = refl

abbrev noon : Time → Text
noon t = codes "12:00"

prints :
    format_event noon (record no_event {
      category = codes "file";
      action = codes "write";
      pid = pos 7;
      path = codes "/a";
    })
    ≡ codes "12:00 file     write    pid=7 ppid=0 uid=0 comm= path=/a"
unfolding format_event
prints = refl

tabulates :
    table_text (codes "pid" ∷ codes "comm" ∷ []) ((other (codes "7") ∷ null ∷ []) ∷ [])
    ≡ codes "pid\tcomm\n7\t\n"
unfolding table_text
tabulates = refl

maps :
    rows_to_maps {A = ℕ} (codes "pid" ∷ codes "n" ∷ []) ((7 ∷ 2 ∷ []) ∷ [])
    ≡ some (((codes "pid", 7) ∷ (codes "n", 2) ∷ []) ∷ [])
unfolding rows_to_maps text_eq
maps = refl

-- The first two events are fetched, one of them matches, and the second has the greater id.
abbrev clock : Clock
clock = record { before = λ now input. some 5; parse_in = λ layout input. none }

abbrev is_second : Event → Bool
is_second ev = ev.id == 2

abbrev logged : WatchStore
logged = record { query = λ f. ok (numbered 1 ∷ numbered 2 ∷ []); latest_id = ok 9 }
