-- ===== src/Tests/Stores.antt =====
-- Queries and transactions, at concrete inputs.
use ltm.Prelude.{
  ℕ, ◌+◌, ◌≡◌, refl, sym, pos, false, List, [], ◌∷◌, ◌++◌, codes, none, some, length, keep, text_eq,
  ok, arith, not,
}
use mathlib.Core.List.{map-append}
use ltm.Go.Time.{epoch, ltb_64}
use ltm.Storage.Event.{Event, Filter, validate, no_event, no_filter}
use ltm.Storage.Select.Marks.{marks, marks-query_text}
use ltm.Storage.Select.Meaning.{Row, select_rows}
use ltm.Storage.Select.{query_text, query_args, query_parts}
use ltm.Storage.Store.QueryRefines.{wanted, query-wanted}
use ltm.Storage.Store.{Rows, scan_events, query}
use ltm.Storage.Write.Atomic.{AllOrNothing, insert_events-AllOrNothing}
use ltm.Storage.Write.{Database, Calls, event_row, Store, insert_events}

abbrev pub event_one : Event
event_one = record no_event {
  timestamp = 5;
  category = codes "file";
  action = codes "write";
  pid = pos 7;
  dropped_before = 2;
}

abbrev pub event_two : Event
event_two = record event_one { pid = pos 8; dropped_before = 3 }

abbrev row_of : ℕ → ℕ → Event → Row
row_of id ts ev = record (event_row 0 (codes "{}") ev) { id = id; ts = ts }

abbrev pub row_one : Row
row_one = row_of 1 4 event_one

abbrev row_two : Row
row_two = row_of 2 6 event_two

abbrev two_rows : List Row
two_rows = row_one ∷ row_two ∷ []

abbrev by_pid : Filter
by_pid = record no_filter { pids = pos 7 ∷ pos 9 ∷ []; path_like = codes "a"; limit = pos 3 }

abbrev by_category : Filter
by_category = record no_filter {
  from = epoch + 5;
  pids = pos 8 ∷ [];
  categories = codes "file" ∷ [];
}

-- A driver that returns the rows which the statement of the filter means.
abbrev driver : Rows
driver q values =
    ok (select_rows text_eq (query_parts by_category).clauses by_category.order_asc values two_rows)

marks-query_text_example : marks (query_text by_pid) ≡ length (query_args by_pid)
marks-query_text_example = marks-query_text by_pid

query-wanted_example :
    query (λ m. some []) driver by_category
    ≡ scan_events (λ m. some []) (wanted text_eq by_category two_rows)
unfolding validate
query-wanted_example =
    query-wanted text_eq by_category two_rows (λ m. some []) driver refl
      (record { from_in_range = λ e. (omega arith, omega arith); to_in_range = λ e. cc })
      (omega arith, (omega arith, tt)) refl

-- A table in memory.
abbrev pub table : Database
table = record {
  State = List Row;
  Tx = List Row;
  rows = λ s. s;
  pending = λ t. t;
  begin = λ s. ok [];
  insert = λ t r. ok (t ++ r ∷ []);
  commit = λ s t. (s ++ t, none);
  rollback = λ s t. s;
  delete_before = λ s cutoff. (keep (λ r. not (ltb_64 r.ts cutoff)) s, none);
  rows_affected = λ s cutoff. ok (length (keep (λ r. ltb_64 r.ts cutoff) s));
  vacuum = λ s. (s, none);
  begin_law = λ s {t} e. cc;
  insert_law = λ t r {u} e. cc;
  commit_law = λ s t e. map-append _ s t;
  commit_error_law = λ s t x e. absurd (cc);
  rollback_law = λ s t. refl;
  delete_law = λ s cutoff e. refl;
  delete_error_law = λ s cutoff x e. absurd (cc);
  rows_affected_law = λ s cutoff {n} e h. sym (cc h);
  vacuum_law = λ s. refl;
}

abbrev pub calls : Calls
calls = record { now = λ n. 9; context_error = λ n. none; marshal = λ m. some (codes "{}") }

abbrev pub opened_table : Store table
opened_table = record { db = some two_rows; is_read_only = false }

insert_events-AllOrNothing_example :
    AllOrNothing calls opened_table
      (event_one ∷ event_two ∷ [])
      (insert_events calls opened_table (event_one ∷ event_two ∷ []))
insert_events-AllOrNothing_example =
    insert_events-AllOrNothing calls opened_table (event_one ∷ event_two ∷ [])
