-- ===== src/Storage/Store.antt =====
-- internal/storage/query.go and write.go: reading. The driver is the argument `db`, which runs a
-- statement with its arguments; encoding/json is the argument `unmarshal`.
pub mod QueryRefines
pub mod ReadsBack
use ltm.Prelude.{
  ℕ, ◌≡◌, Bool, true, false, not, ◌&&◌, ◌||◌, List, [], ◌∷◌, Text, codes, Option, none, some,
  text_eq, is_empty, if◌then◌else◌, Result, ok, err, ◌>>=◌,
}
use ltm.Go.Time.{unix}
use ltm.Storage.Event.{Event, Value, Filter, Error, malformed, validate}
use ltm.Storage.Select.Meaning.{Row}
use ltm.Storage.Select.{Arg, query_text, query_args}

-- abi.SchemaVersion.
abbrev pub schema_version : ℕ
schema_version = 1

abbrev pub Rows : Type 0
Rows = Text → List Arg → Result Error (List Row)

abbrev pub Metadata : Type 0
Metadata = List (Text × Value)

abbrev pub or_malformed : Option Metadata → Result Error Metadata
or_malformed none = err malformed
or_malformed (some m) = ok m

module _ (unmarshal : Text → Option Metadata) where
  -- The metadata of a row: nothing for `` and `{}`, which are not handed to the decoder.
  unfoldable pub scan_metadata : Text → Result Error Metadata
  scan_metadata metadata =
      if not (is_empty metadata) && not (text_eq metadata (codes "{}"))
      then or_malformed (unmarshal metadata)
      else ok []

  abbrev pub with_metadata : Row → Metadata → Event
  with_metadata r m = record {
    id = r.id;
    schema_version = schema_version;
    timestamp = unix r.ts;
    category = r.category;
    action = r.action;
    pid = r.pid;
    ppid = r.ppid;
    uid = r.uid;
    comm = r.comm;
    exe = r.exe;
    container_id = r.container_id;
    cgroup_path = r.cgroup_path;
    path = r.path;
    old_path = r.old_path;
    local_addr = r.local_addr;
    local_port = r.local_port;
    remote_addr = r.remote_addr;
    remote_port = r.remote_port;
    remote_host = r.remote_host;
    target_pid = r.target_pid;
    exit_code = r.exit_code;
    dropped_before = r.dropped_before;
    metadata = m;
    raw = r.raw;
  }

  unfoldable pub scan_event : Row → Result Error Event
  scan_event r = do m ← scan_metadata r.metadata; ok (with_metadata r m)

  -- The loop over the rows; the first row that does not scan ends it.
  unfoldable pub scan_events : List Row → Result Error (List Event)
  scan_events [] = ok []
  scan_events (r ∷ rows) = do ev ← scan_event r; events ← scan_events rows; ok (ev ∷ events)

  module _ (db : Rows) where
    unfoldable pub query_events : Text → List Arg → Result Error (List Event)
    query_events text args = do rows ← db text args; scan_events rows

    unfoldable pub query : Filter → Result Error (List Event)
    query f = do checked ← validate f; query_events (query_text f) (query_args f)
