-- ===== src/Storage/Select.antt =====
-- internal/storage/query.go, `Query`: the SELECT statement and its arguments that a filter stands for.
pub mod Marks
pub mod Meaning
pub mod Refines
use ltm.Prelude.{
  ℕ, zero, suc, ℤ, pos, Bool, true, false, not, List, [], ◌∷◌, ◌++◌, map, Text, codes, length,
  is_empty, leb_ℤ, if◌then◌else◌,
}
use ltm.Go.Strings.{join, repeat, trim_suffix}
use ltm.Go.Time.{is_zero, unix_nano}
use ltm.Storage.Event.{Filter}

pub data Arg : Type 0 where
  int64 : ℕ → Arg
  int : ℤ → Arg
  text : Text → Arg

-- The columns that are compared with a list.
pub data Column : Type 0 where
  pid uid category action comm : Column

-- The conditions that are joined by AND.
pub data Clause : Type 0 where
  ts_ge ts_le path_like exe_like exact_path : Clause
  is_in : Column → ℕ → Clause

abbrev pub column_name : Column → Text
column_name pid = codes "pid"
column_name uid = codes "uid"
column_name category = codes "category"
column_name action = codes "action"
column_name comm = codes "comm"

unfoldable pub placeholders : ℕ → Text
placeholders n = trim_suffix (repeat (codes "?,") n) (codes ",")

unfoldable pub clause_text : Clause → Text
clause_text ts_ge = codes "ts >= ?"
clause_text ts_le = codes "ts <= ?"
clause_text path_like = codes "(path LIKE ? OR old_path LIKE ?)"
clause_text exe_like = codes "exe LIKE ?"
clause_text exact_path = codes "(path = ? OR old_path = ?)"
clause_text (is_in c n) = column_name c ++ codes " IN (" ++ placeholders n ++ codes ")"

-- The two slices `where` and `args`.
pub record Parts : Type 0 where
  pub clauses : List Clause
  pub args : List Arg

unfoldable pub add_if : Bool → Clause → List Arg → Parts → Parts
add_if test c values p =
    if test then record { clauses = p.clauses ++ c ∷ []; args = p.args ++ values } else p

abbrev pub is_nil {ℓ} : {A : Type ℓ} → List A → Bool
is_nil [] = true
is_nil (x ∷ xs) = false

abbrev pub like_args : Text → List Arg
like_args s = text s ∷ text s ∷ []

unfoldable pub query_parts : Filter → Parts
query_parts f = add_if (not (is_empty f.exact_path)) exact_path (like_args f.exact_path) (
    add_if (not (is_empty f.exe_like)) exe_like (text f.exe_like ∷ []) (
      add_if (not (is_empty f.path_like)) path_like (like_args f.path_like) (
        add_if (not (is_nil f.comms)) (is_in comm (length f.comms)) (map text f.comms) (
          add_if (not (is_nil f.actions)) (is_in action (length f.actions)) (map text f.actions) (
            add_if (not (is_nil f.categories)) (is_in category (length f.categories))
              (map text f.categories)
              (add_if (not (is_nil f.uids)) (is_in uid (length f.uids)) (map int f.uids) (
                add_if (not (is_nil f.pids)) (is_in pid (length f.pids)) (map int f.pids) (
                  add_if (not (is_zero f.to)) ts_le (int64 (unix_nano f.to) ∷ []) (
                    add_if (not (is_zero f.from)) ts_ge (int64 (unix_nano f.from) ∷ [])
                      (record { clauses = []; args = [] }))))))))))

-- storage/schema_gen.go.
abbrev pub event_columns : Text
event_columns =
    codes
      "id, ts, category, action, pid, ppid, uid, comm, exe, container_id, cgroup_path, path, old_path, local_addr, local_port, remote_addr, remote_port, remote_host, target_pid, exit_code, dropped_before, metadata, raw"

abbrev where_text : List Clause → Text
where_text [] = []
where_text (c ∷ cs) = codes " WHERE " ++ join (map clause_text (c ∷ cs)) (codes " AND ")

abbrev order_text : Bool → Text
order_text true = codes " ORDER BY ts ASC, id ASC LIMIT ?"
order_text false = codes " ORDER BY ts DESC, id DESC LIMIT ?"

-- The statement's text, from its conditions and its direction.
unfoldable pub select_text : List Clause → Bool → Text
select_text clauses asc =
    codes "SELECT "
    ++ (event_columns ++ (codes " FROM events" ++ (where_text clauses ++ order_text asc)))

unfoldable pub effective_limit : ℤ → ℤ
effective_limit limit = if leb_ℤ limit (pos 0) then pos 200 else limit

unfoldable pub query_text : Filter → Text
query_text f = select_text (query_parts f).clauses f.order_asc

unfoldable pub query_args : Filter → List Arg
query_args f = (query_parts f).args ++ int (effective_limit f.limit) ∷ []
