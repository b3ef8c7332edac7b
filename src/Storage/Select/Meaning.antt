-- ===== src/Storage/Select/Meaning.antt =====
-- What a SELECT over the events table means: the documented behaviour of SQLite for a conjunction of
-- conditions, ORDER BY ts and id, and LIMIT. LIKE is the argument `like`, pattern first.
use ltm.Prelude.{
  ℕ, ℤ, pos, Bool, true, false, not, ◌&&◌, ◌||◌, List, [], ◌∷◌, Text, text_eq, eq_ℤ, take, drop,
  ltb, keep, ◌==◌, if◌then◌else◌,
}
use ltm.Go.Time.{ltb_64}
use ltm.Storage.Select.{
  Arg, int64, int, text, Column, pid, uid, category, action, comm, Clause, ts_ge, ts_le, path_like,
  exe_like, exact_path, is_in,
}
use ltm.Storage.Select.Marks.{arity, arities}

-- A row of the table `events`: the columns of internal/abi/abi.yaml in their order.
pub record Row : Type 0 where
  pub id : ℕ
  pub ts : ℕ
  pub category : Text
  pub action : Text
  pub pid : ℤ
  pub ppid : ℤ
  pub uid : ℤ
  pub comm : Text
  pub exe : Text
  pub container_id : Text
  pub cgroup_path : Text
  pub path : Text
  pub old_path : Text
  pub local_addr : Text
  pub local_port : ℤ
  pub remote_addr : Text
  pub remote_port : ℤ
  pub remote_host : Text
  pub target_pid : ℤ
  pub exit_code : ℤ
  pub dropped_before : ℕ
  pub metadata : Text
  pub raw : Text

abbrev pub arg_is : Arg → Arg → Bool
arg_is (int64 a) (int64 b) = a == b
arg_is (int a) (int b) = eq_ℤ a b
arg_is (text a) (text b) = text_eq a b
arg_is _ _ = false

abbrev pub column : Column → Row → Arg
column pid r = int r.pid
column uid r = int r.uid
column category r = text r.category
column action r = text r.action
column comm r = text r.comm

abbrev pub is_among : Arg → List Arg → Bool
is_among a [] = false
is_among a (b ∷ bs) = arg_is b a || is_among a bs

module _ (like : Text → Text → Bool) where
  -- A condition with its own arguments, at a row.
  unfoldable pub holds : Clause → List Arg → Row → Bool
  holds ts_ge (int64 n ∷ _) r = not (ltb_64 r.ts n)
  holds ts_le (int64 n ∷ _) r = not (ltb_64 n r.ts)
  holds path_like (text p ∷ text q ∷ _) r = like p r.path || like q r.old_path
  holds exe_like (text p ∷ _) r = like p r.exe
  holds exact_path (text p ∷ text q ∷ _) r = text_eq r.path p || text_eq r.old_path q
  holds (is_in c n) values r = is_among (column c r) values
  holds _ _ r = false

  -- The arguments are bound to the conditions from left to right.
  unfoldable pub all_hold : List Clause → List Arg → Row → Bool
  all_hold [] args r = true
  all_hold (c ∷ cs) args r = holds c (take (arity c) args) r && all_hold cs (drop (arity c) args) r

-- `r` stands before `s` in the order of ts and then id.
unfoldable pub stands_before : Row → Row → Bool
stands_before r s = ltb_64 r.ts s.ts || (r.ts == s.ts && ltb r.id s.id)

unfoldable pub insert_row : Bool → Row → List Row → List Row
insert_row asc r [] = r ∷ []
insert_row asc r (s ∷ rows) =
    if (if asc then stands_before s r else stands_before r s)
    then s ∷ insert_row asc r rows
    else r ∷ s ∷ rows

unfoldable pub order_rows : Bool → List Row → List Row
order_rows asc [] = []
order_rows asc (r ∷ rows) = insert_row asc r (order_rows asc rows)

-- A negative LIMIT is none.
unfoldable pub limited : List Arg → List Row → List Row
limited (int (pos n) ∷ _) rows = take n rows
limited _ rows = rows

-- The rows that `SELECT … WHERE clauses ORDER BY … LIMIT ?` returns.
unfoldable pub select_rows :
    (Text → Text → Bool) → List Clause → Bool → List Arg → List Row → List Row
select_rows like clauses asc args rows =
    limited (drop (arities clauses) args) (order_rows asc (keep (all_hold like clauses args) rows))
