-- ===== src/Query/Engine.antt =====
-- internal/query/engine.go: Execute and the queries that it chooses from.
pub mod Rows
unfoldable pub use Rows.*
use ltm.Prelude.{
  ℤ, pos, Bool, true, false, ◌&&◌, ◌||◌, List, [], ◌∷◌, ◌++◌, Text, codes, Option, none, some,
  is_empty, text_eq, eq_ℤ, if◌then◌else◌, Result, ok, ◌>>=◌,
}
use ltm.Go.Numbers.{atoi, itoa}
use ltm.Go.Strings.{contains, cut, fields, to_lower, trim, trim_space}
use ltm.Go.Time.{Time}
use ltm.Storage.Event.{Event, Filter, Error, no_filter}
use ltm.Storage.Raw.{SocketRecord}
use ltm.Query.Words.{connection_host, find_ip, find_number, restart_comm, who_modified}

module _ (rfc3339 : Time → Text) where
  module _ (store : Reader) where
    unfoldable pub query_changes : Text → Result Error QueryResult
    unfolding rows_where itoa
    query_changes path = do
      events ← store.query (path_filter path)
      ok (record {
        title = codes "who modified " ++ path;
        rows = rows_where is_change (change_row rfc3339) events;
      })

    unfoldable pub query_restart : Text → Result Error QueryResult
    unfolding rows_of itoa restart_comm
    query_restart q = do
      events ← store.query (restart_filter (restart_comm q))
      ok (record {
        title =
            if is_empty (restart_comm q)
            then codes "process restart window"
            else codes "restart window for " ++ restart_comm q;
        rows = rows_of (restart_row rfc3339) events;
      })

    abbrev pub query_connects : (Event → Bool) → Result Error QueryResult
    query_connects wanted = do
      events ← store.query connect_filter
      ok (record {
        title = codes "matching connections";
        rows = rows_where wanted (connect_row rfc3339) events;
      })

    abbrev pub connects_to : Text → Option Text → Result Error QueryResult
    connects_to q (some ip) = query_connects (at_ip ip)
    connects_to q none = query_connects (at_host (connection_host q))

    unfoldable pub query_connection : Text → Result Error QueryResult
    unfolding rows_where itoa find_ip connection_host contains
    query_connection q = connects_to q (find_ip false q)

    abbrev pub port_openers : Option Text → Result Error QueryResult
    port_openers none = ok (record { title = codes "opened port"; rows = [] })
    port_openers (some digits) = do
      found ← store.sockets (pos 500)
      ok (record {
        title = codes "processes that opened port " ++ itoa (digits_int digits);
        rows =
            rows_where (opens (digits_int digits)) ((port_row rfc3339) (digits_int digits)) found;
      })

    unfoldable pub query_port : Text → Result Error QueryResult
    unfolding rows_where itoa find_number digits_int
    query_port q = port_openers (find_number (codes "port") false q)

    abbrev pub pid_activity : Option Text → Result Error QueryResult
    pid_activity none = ok no_result
    pid_activity (some digits) = do
      events ← store.query (pid_filter (digits_int digits))
      ok (record {
        title = codes "activity for pid " ++ itoa (digits_int digits);
        rows = rows_of (pid_row rfc3339) events;
      })

    unfoldable pub query_pid : Text → Result Error QueryResult
    unfolding rows_of itoa find_number digits_int
    query_pid q = pid_activity (find_number (codes "pid") false q)

    abbrev pub file_activity : Option (Text × Text) → Result Error QueryResult
    file_activity none = ok no_result
    file_activity (some (front, back)) = do
      events ← store.query (path_filter (trim (trim_space back) (codes "\"")))
      ok (record {
        title = codes "activity for file " ++ trim (trim_space back) (codes "\"");
        rows = rows_of (file_row rfc3339) events;
      })

    unfoldable pub query_file : Text → Result Error QueryResult
    unfolding rows_of itoa cut trim trim_space
    query_file q = file_activity (cut q (codes "file"))

    unfoldable pub query_timeline : Text → Result Error QueryResult
    unfolding rows_of itoa fields trim_space
    query_timeline q = do
      events ← store.search (fields (trim_space q)) (pos 50)
      ok (record { title = codes "matched timeline"; rows = rows_of (timeline_row rfc3339) events })

    -- The cases behind the first, by the question in lower case.
    unfoldable pub by_words : Text → Text → Result Error QueryResult
    unfolding contains query_restart query_connection query_port query_pid query_file query_timeline
    by_words q lq =
        if contains lq (codes "restarted") && contains lq (codes "before")
        then query_restart q
        else if contains lq (codes "connected to") || contains lq (codes "connected")
        then query_connection q
        else if contains lq (codes "opened port")
        then query_port q
        else if contains lq (codes "show activity for pid")
        then query_pid q
        else if contains lq (codes "show activity for file")
        then query_file q
        else query_timeline q

    abbrev pub modified_or : Text → Option Text → Result Error QueryResult
    modified_or q (some path) = query_changes (trim_space path)
    modified_or q none = by_words q (to_lower q)

    unfoldable pub execute : Text → Result Error QueryResult
    unfolding who_modified query_changes by_words trim_space
    execute question = modified_or (trim_space question) (who_modified (trim_space question))
