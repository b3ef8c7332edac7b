-- ===== src/Storage/Event.antt =====
-- internal/storage/types.go: the event, the filter of a query, and its check.
use ltm.Prelude.{
  ℕ, ℤ, pos, Bool, false, not, ◌&&◌, List, [], Text, ltb_ℤ, if◌then◌else◌, Result, ok, err,
}
use ltm.Go.Time.{Time, is_zero, after}

-- The values that the program puts into an event's metadata.
pub data Value : Type 0 where
  number : ℤ → Value
  string : Text → Value

-- `dropped_before` is an int64, kept as the number of its bits (Go.Time).
pub record Event : Type 0 where
  pub id : ℕ
  pub schema_version : ℕ
  pub timestamp : Time
  pub category : Text
  pub action : Text
  pub pid : ℤ
  pub ppid : ℤ
  pub uid : ℤ
  pub comm : Text
  pub exe : Text
  pub container_id : Text
  pub cgroup_path : Text
  pub path : Text
  pub old_path : Text
  pub local_addr : Text
  pub local_port : ℤ
  pub remote_addr : Text
  pub remote_port : ℤ
  pub remote_host : Text
  pub target_pid : ℤ
  pub exit_code : ℤ
  pub dropped_before : ℕ
  pub metadata : List (Text × Value)
  pub raw : Text

-- Go's zero value `Event{}`.
abbrev pub no_event : Event
no_event = record {
  id = 0;
  schema_version = 0;
  timestamp = 0;
  category = [];
  action = [];
  pid = pos 0;
  ppid = pos 0;
  uid = pos 0;
  comm = [];
  exe = [];
  container_id = [];
  cgroup_path = [];
  path = [];
  old_path = [];
  local_addr = [];
  local_port = pos 0;
  remote_addr = [];
  remote_port = pos 0;
  remote_host = [];
  target_pid = pos 0;
  exit_code = pos 0;
  dropped_before = 0;
  metadata = [];
  raw = [];
}

pub record Filter : Type 0 where
  pub from : Time
  pub to : Time
  pub pids : List ℤ
  pub uids : List ℤ
  pub categories : List Text
  pub actions : List Text
  pub comms : List Text
  pub path_like : Text
  pub exe_like : Text
  pub exact_path : Text
  pub order_asc : Bool
  pub limit : ℤ

-- Go's zero value `Filter{}`.
abbrev pub no_filter : Filter
no_filter = record {
  from = 0;
  to = 0;
  pids = [];
  uids = [];
  categories = [];
  actions = [];
  comms = [];
  path_like = [];
  exe_like = [];
  exact_path = [];
  order_asc = false;
  limit = pos 0;
}

pub data Error : Type 0 where
  inverted_range negative_limit read_only closed needs_read_only several_statements : Error
  too_many_rows database malformed cancelled nil_dereference : Error

-- Filter.Validate.
unfoldable pub validate : Filter → Result Error (Unit {0})
validate f =
    if not (is_zero f.from) && not (is_zero f.to) && after f.from f.to
    then err inverted_range
    else if ltb_ℤ f.limit (pos 0)
    then err negative_limit
    else ok tt
