-- ===== src/Diff/Report.antt =====
-- internal/diff/engine.go: the loop of `Diff`, and the report.
pub mod Changes
unfoldable pub use Changes.*
use ltm.Prelude.{
  ℕ, ℤ, pos, Bool, true, false, not, List, [], ◌∷◌, ◌++◌, Text, codes, Option, none, some, text_eq,
  is_empty, eq_ℤ, member, any, length, leb, if◌then◌else◌, Result, ok, ◌>>=◌,
}
use ltm.Go.Numbers.{itoa}
use ltm.Go.Strings.{trim_space}
use ltm.Go.Time.{Time, after}
use ltm.Storage.Event.{Event, Error, no_filter}
use ltm.Storage.Store.{Rows, Metadata, query}

-- The report, and the three maps of the loop.
pub record Scan : Type 0 where
  pub report : DiffReport
  pub writes : List (Text × List Event)
  pub last_exit : List (Text × Event)
  pub seen_new_pid : List ℤ

abbrev pub process_change : Event → ProcessChange
process_change ev = record {
  timestamp = ev.timestamp;
  pid = ev.pid;
  comm = ev.comm;
  path = ev.exe;
  action = ev.action;
}

abbrev pub file_change : Text → Event → FileChange
file_change path ev = record {
  timestamp = ev.timestamp;
  path = path;
  count = 1;
  action = ev.action;
}

abbrev pub socket_change : Text → ℤ → Event → SocketChange
socket_change addr port ev = record {
  timestamp = ev.timestamp;
  pid = ev.pid;
  comm = ev.comm;
  socket = addr ++ (codes ":" ++ itoa port);
  action = ev.action;
}

unfoldable pub add_new_process : Event → Scan → Scan
add_new_process ev s = if any (λ pid. eq_ℤ pid ev.pid) s.seen_new_pid then s else record s {
  seen_new_pid = ev.pid ∷ s.seen_new_pid;
  report = record s.report { new_processes = s.report.new_processes ++ process_change ev ∷ [] };
}

abbrev pub restarts_after : Event → Option Event → Bool
restarts_after ev none = false
restarts_after ev (some prior_exit) = after ev.timestamp prior_exit.timestamp

unfoldable pub add_restart : Event → Scan → Scan
add_restart ev s =
    if restarts_after ev (lookup (restart_key ev) s.last_exit)
    then record s {
      report = record s.report {
        restarts =
            s.report.restarts
            ++ record { comm = ev.comm; pid = ev.pid; timestamp = ev.timestamp } ∷ [];
      };
    }
    else s

unfoldable pub add_exit : Event → Scan → Scan
add_exit ev s = record s {
  report = record s.report {
    exited_processes = s.report.exited_processes ++ process_change ev ∷ [];
  };
  last_exit =
      if not (is_empty (restart_key ev))
      then store (restart_key ev) ev s.last_exit
      else s.last_exit;
}

abbrev pub modified_path : Event → Text
modified_path ev = first_non_empty (ev.path ∷ ev.old_path ∷ [])

unfoldable pub add_modified : Event → Scan → Scan
add_modified ev s =
    let path = modified_path ev in
    if is_empty path then s else record s {
      report = record s.report {
        modified_files = s.report.modified_files ++ file_change path ev ∷ [];
      };
      writes =
          if text_eq ev.action (codes "write")
          then store path (or_nil (lookup path s.writes) ++ ev ∷ []) s.writes
          else s.writes;
    }

-- One case of the switch.
unfoldable pub scan_kind : Kind → Event → Scan → Scan
scan_kind started ev s = add_restart ev (add_new_process ev s)
scan_kind exited ev s = add_exit ev s
scan_kind modified ev s = add_modified ev s
scan_kind deleted ev s = record s {
  report = record s.report {
    deleted_files = s.report.deleted_files ++ file_change ev.path ev ∷ [];
  };
}
scan_kind listening ev s = record s {
  report = record s.report {
    new_listeners = s.report.new_listeners ++ socket_change ev.local_addr ev.local_port ev ∷ [];
  };
}
scan_kind outbound ev s = record s {
  report = record s.report {
    outbound_connections =
        s.report.outbound_connections ++ socket_change ev.remote_addr ev.remote_port ev ∷ [];
  };
}
scan_kind other ev s = s

unfoldable pub scan_events : Scan → List Event → Scan
scan_events s [] = s
scan_events s (ev ∷ events) = scan_events (scan_kind (kind_of ev) ev s) events

-- `evs[len(evs)-1]`.
abbrev pub last_of : Event → List Event → Event
last_of ev [] = ev
last_of ev (next ∷ events) = last_of next events

abbrev pub hot_writer : Text → Event → List Event → HotWriter
hot_writer path first rest = record {
  path = path;
  pid = (last_of first rest).pid;
  comm = (last_of first rest).comm;
  count = length (first ∷ rest);
  timestamp = (last_of first rest).timestamp;
}

unfoldable pub hot_writers_of : List (Text × List Event) → List HotWriter
hot_writers_of [] = []
hot_writers_of ((path, []) ∷ writes) = hot_writers_of writes
hot_writers_of ((path, first ∷ rest) ∷ writes) =
    if leb 3 (length (first ∷ rest))
    then hot_writer path first rest ∷ hot_writers_of writes
    else hot_writers_of writes

abbrev pub no_report : Time → Time → DiffReport
no_report from to = record {
  from = from;
  to = to;
  new_processes = [];
  exited_processes = [];
  modified_files = [];
  deleted_files = [];
  new_listeners = [];
  outbound_connections = [];
  hot_writers = [];
  restarts = [];
}

unfoldable pub scan_all : Time → Time → List Event → Scan
scan_all from to events =
    scan_events
      (record { report = no_report from to; writes = []; last_exit = []; seen_new_pid = [] }) events

unfoldable pub report_of : Time → Time → List Event → DiffReport
report_of from to events =
    let s = scan_all from to events in record s.report { hot_writers = hot_writers_of s.writes }

unfoldable pub diff : (Text → Option Metadata) → Rows → Time → Time → Result Error DiffReport
diff unmarshal db from to = do
  events ←
      query unmarshal db
        (record no_filter { from = from; to = to; order_asc = true; limit = pos 50000 })
  ok (report_of from to events)
