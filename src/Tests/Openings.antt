-- ===== src/Tests/Openings.antt =====
-- internal/storage/open.go and the totals of a table, at concrete files and tables.
use ltm.Prelude.{
  ◌+◌, ◌≡◌, refl, true, false, [], ◌∷◌, Text, codes, none, some, text_eq, length, arith,
  if◌then◌else◌, ok, Result,
}
use ltm.Go.Url.{encode_values, escape_path_byte, hex, url_string}
use ltm.Go.Time.{epoch, unix}
use ltm.Storage.Event.{Error, database}
use ltm.Storage.Open.Dsn.{Reads, dsn-Reads}
use ltm.Storage.Open.Leaves.{Leaves, opening-Leaves, schema_calls}
use ltm.Storage.Open.{Files, directory_made, dsn, missing, open_read_only, open_store, pragmas}
use ltm.Storage.Totals.Follows.{Grown, status-insert_events}
use ltm.Storage.Totals.{Status, Totals, status, totals_of}
use ltm.Storage.Write.Atomic.{stored}
use ltm.Storage.Write.{event_row, finish_insert, insert_all, insert_event, insert_events}
use ltm.Tests.Stores.{calls, event_one, event_two, opened_table}

-- Files where every call succeeds, but for an existing database.
abbrev pub fresh : Files
fresh = record {
  absolute = λ path. ok (codes "/d/a b?#.db");
  make_directory = λ path. none;
  stat = λ path. missing;
  connect = λ d. none;
  ping = λ d. none;
  exec = λ d stmt. none;
}

-- The same, where an index cannot be made.
abbrev locked : Files
locked = record fresh {
  exec = λ d stmt.
      if text_eq stmt (codes "CREATE INDEX IF NOT EXISTS idx_events_ts ON events(ts)")
      then some database
      else none;
}

abbrev odd_path : Text
odd_path = codes "/d/a b?#.db"

writes_dsn :
    dsn odd_path true
    ≡ codes
        "file:///d/a%20b%3F%23.db?_pragma=busy_timeout%285000%29&_pragma=journal_mode%28wal%29&_pragma=synchronous%28normal%29&_pragma=query_only%28true%29"
unfolding dsn url_string encode_values escape_path_byte hex
writes_dsn = refl

dsn-Reads_example : Reads (dsn odd_path true) odd_path true (pragmas true)
dsn-Reads_example = dsn-Reads odd_path true (omega arith)

opening-Leaves_example :
    Leaves locked odd_path false
      (λ p. directory_made p ∷ schema_calls (dsn p false))
      (open_store locked odd_path).calls
      (open_store locked odd_path).result
    × Leaves locked odd_path true
        (λ p. [])
        (open_read_only locked odd_path).calls
        (open_read_only locked odd_path).result
opening-Leaves_example = opening-Leaves locked odd_path

-- A failing statement ends the opening behind the statement before it.
closes : length (open_store locked odd_path).calls ≡ 5
unfolding open_store text_eq
closes = refl

abbrev opened_totals : Text → Result Error Totals
opened_totals text = ok (totals_of (stored opened_table))

abbrev grown_totals : Text → Result Error Totals
grown_totals text =
    ok (totals_of (stored (insert_events calls opened_table (event_one ∷ event_two ∷ [])).store))

status-insert_events_example :
    (before after : Status) × (status opened_totals ≡ ok before)
    × (status grown_totals ≡ ok after)
    × Grown before after
        (event_one ∷ event_two ∷ [])
        (insert_events calls opened_table (event_one ∷ event_two ∷ [])).dropped
unfolding insert_events insert_all insert_event finish_insert
status-insert_events_example =
    status-insert_events calls opened_table (event_one ∷ event_two ∷ []) opened_totals grown_totals
      refl refl refl

counts :
    status opened_totals
    ≡ ok (record {
      event_count = 2;
      dropped_events = 5;
      last_event_time = epoch + 6;
      started_at = epoch + 4;
    })
unfolding status totals_of event_row unix
counts = refl
