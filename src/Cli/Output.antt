-- ===== src/Cli/Output.antt =====
-- internal/cli/output.go: the lines that the commands print, and rowsToMaps of commands_query.go.
-- `rfc3339` is the format of a time, and `show` is %v on a cell of a row.
use ltm.Prelude.{
  ◌-◌, ℤ, pos, List, [], ◌∷◌, ◌++◌, Text, codes, Option, none, some, is_empty, eq_ℤ, length, map,
  replicate, if◌then◌else◌,
}
use ltm.Diff.Report.{
  DiffReport, FileChange, HotWriter, ProcessChange, ProcessRestart, SocketChange, store,
}
use ltm.Go.Numbers.{decimal, itoa}
use ltm.Go.Strings.{join}
use ltm.Go.Time.{Time}
use ltm.Query.Engine.{QueryResult}
use ltm.Agent.SchemaDoc.{schema_doc_text}
use ltm.Storage.Event.{Event}

-- %-8s.
abbrev left_8 : Text → Text
left_8 s = s ++ replicate (8 - length s) b' '

abbrev labelled : Text → Text → Text
labelled label s = if is_empty s then [] else label ++ s

abbrev address : Text → Text → ℤ → Text
address label addr port = if eq_ℤ port (pos 0) then [] else label ++ addr ++ codes ":" ++ itoa port

abbrev line : Text → Text
line s = s ++ codes "\n"

module _ (rfc3339 : Time → Text) where
  unfoldable pub format_event : Event → Text
  unfolding itoa
  format_event ev =
      rfc3339 ev.timestamp
      ++ codes " "
      ++ left_8 ev.category
      ++ codes " "
      ++ left_8 ev.action
      ++ codes " pid="
      ++ itoa ev.pid
      ++ codes " ppid="
      ++ itoa ev.ppid
      ++ codes " uid="
      ++ itoa ev.uid
      ++ codes " comm="
      ++ ev.comm
      ++ labelled (codes " path=") ev.path
      ++ labelled (codes " old_path=") ev.old_path
      ++ address (codes " local=") ev.local_addr ev.local_port
      ++ address (codes " remote=") ev.remote_addr ev.remote_port

  unfoldable pub event_lines : List Event → Text
  unfolding format_event
  event_lines [] = []
  event_lines (ev ∷ events) = line (format_event ev) ++ event_lines events

  abbrev pub file_line : FileChange → Text
  file_line f =
      codes "  "
      ++ rfc3339 f.timestamp
      ++ codes " path="
      ++ f.path
      ++ codes " count="
      ++ decimal f.count
      ++ codes " action="
      ++ f.action

  abbrev pub process_line : ProcessChange → Text
  process_line p =
      codes "  "
      ++ rfc3339 p.timestamp
      ++ codes " pid="
      ++ itoa p.pid
      ++ codes " comm="
      ++ p.comm
      ++ codes " path="
      ++ p.path
      ++ codes " action="
      ++ p.action

  abbrev pub socket_line : SocketChange → Text
  socket_line s =
      codes "  "
      ++ rfc3339 s.timestamp
      ++ codes " pid="
      ++ itoa s.pid
      ++ codes " comm="
      ++ s.comm
      ++ codes " socket="
      ++ s.socket
      ++ codes " action="
      ++ s.action

  abbrev pub writer_line : HotWriter → Text
  writer_line h =
      codes "  "
      ++ rfc3339 h.timestamp
      ++ codes " pid="
      ++ itoa h.pid
      ++ codes " comm="
      ++ h.comm
      ++ codes " path="
      ++ h.path
      ++ codes " count="
      ++ decimal h.count

  abbrev pub restart_line : ProcessRestart → Text
  restart_line r =
      codes "  " ++ rfc3339 r.timestamp ++ codes " pid=" ++ itoa r.pid ++ codes " comm=" ++ r.comm

  -- One part of the report: nothing when it is empty.
  unfoldable pub lines_of : {A : Type 0} → (A → Text) → List A → Text
  lines_of f [] = []
  lines_of f (x ∷ xs) = line (f x) ++ lines_of f xs

  unfoldable pub part : {A : Type 0} → Text → (A → Text) → List A → Text
  unfolding lines_of
  part title f [] = []
  part title f (x ∷ xs) = line title ++ lines_of f (x ∷ xs)

  unfoldable pub diff_text : DiffReport → Text
  unfolding part decimal itoa
  diff_text r =
      line (codes "Diff " ++ rfc3339 r.from ++ codes " -> " ++ rfc3339 r.to)
      ++ line (
          codes "new processes: "
          ++ decimal (length r.new_processes)
          ++ codes " exited: "
          ++ decimal (length r.exited_processes)
          ++ codes " modified files: "
          ++ decimal (length r.modified_files)
          ++ codes " deleted files: "
          ++ decimal (length r.deleted_files))
      ++ line (
          codes "new listeners: "
          ++ decimal (length r.new_listeners)
          ++ codes " outbound connections: "
          ++ decimal (length r.outbound_connections)
          ++ codes " hot writers: "
          ++ decimal (length r.hot_writers)
          ++ codes " restarts: "
          ++ decimal (length r.restarts))
      ++ part (codes "modified files:") file_line r.modified_files
      ++ part (codes "new processes:") process_line r.new_processes
      ++ part (codes "new listeners:") socket_line r.new_listeners
      ++ part (codes "outbound connections:") socket_line r.outbound_connections
      ++ part (codes "hot writers:") writer_line r.hot_writers
      ++ part (codes "restarts:") restart_line r.restarts

unfoldable pub result_rows : List Text → Text
result_rows [] = []
result_rows (row ∷ rows) = line (codes "- " ++ row) ++ result_rows rows

unfoldable pub result_text : QueryResult → Text
unfolding result_rows
result_text r = line r.title ++ result_rows r.rows

-- A value of a row: NULL, a blob, or another one.
pub data SqlValue : Type 0 where
  null : SqlValue
  bytes : Text → SqlValue
  other : Text → SqlValue

unfoldable pub format_sql_value : SqlValue → Text
format_sql_value null = []
format_sql_value (bytes t) = t
format_sql_value (other t) = t

-- What goes to the tabwriter.
unfoldable pub table_rows : List (List SqlValue) → Text
unfolding join format_sql_value
table_rows [] = []
table_rows (row ∷ rows) = line (join (map format_sql_value row) (codes "\t")) ++ table_rows rows

unfoldable pub table_text : List Text → List (List SqlValue) → Text
unfolding join table_rows
table_text columns rows = line (join columns (codes "\t")) ++ table_rows rows

-- The map of a row, over what has been stored; `none` is the panic of a row that is too short.
unfoldable pub row_map {ℓ} :
    {A : Type ℓ} → List (Text × A) → List Text → List A → Option (List (Text × A))
unfolding store
row_map m [] row = some m
row_map m (c ∷ columns) [] = none
row_map m (c ∷ columns) (v ∷ row) = row_map (store c v m) columns row

unfoldable pub rows_to_maps {ℓ} :
    {A : Type ℓ} → List Text → List (List A) → Option (List (List (Text × A)))
unfolding row_map
rows_to_maps columns [] = some []
rows_to_maps columns (row ∷ rows) = elim (row_map [] columns row) [
  | none ↦ none
  | some m ↦ elim (rows_to_maps columns rows) [ none ↦ none | some maps ↦ some (m ∷ maps) ]
]

-- What `query sql` prints for no query.
abbrev pub sql_schema_help : Text
sql_schema_help =
    codes
      "ltm query sql - run read-only SQL against the events table.\n\nUsage:\n  ltm query sql \"<SELECT ...>\"\n  ltm query --json sql \"<SELECT ...>\"\n\n"
    ++ (schema_doc_text
        ++ codes
            "\n\nExamples:\n  ltm query sql \"SELECT comm, count(*) n FROM events GROUP BY comm ORDER BY n DESC LIMIT 10\"\n  ltm query sql \"SELECT datetime(ts/1e9,'unixepoch') ts, path, comm FROM events WHERE category='file' AND action='write' AND path LIKE '/etc/%'\"\n  ltm query sql \"SELECT * FROM events WHERE pid = 1234 ORDER BY ts\"\n  ltm query sql \"SELECT comm, remote_addr, remote_port FROM events WHERE category='network' AND action='connect' AND ts > (unixepoch()-3600)*1000000000\"\n\nThe connection runs with PRAGMA query_only=ON: INSERT/UPDATE/DELETE/DDL will fail.\n")
