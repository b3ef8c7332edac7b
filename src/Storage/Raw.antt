-- ===== src/Storage/Raw.antt =====
-- internal/storage/query.go: RawSQL and Sockets. What the driver answers is an
-- argument: the columns, the rows with an error for each that does not scan, and the error behind the
-- last row.
pub mod Guarded
use ltm.Prelude.{
  ℕ, zero, suc, ℤ, pos, Bool, true, false, not, ◌==◌, List, [], ◌∷◌, ◌++◌, Text, codes, Option,
  none, some, leb, leb_ℤ, map, if◌then◌else◌, Result, ok, err, ◌>>=◌,
}
use ltm.Go.Time.{Time, unix}
use ltm.Storage.Event.{Error, needs_read_only, several_statements, too_many_rows}
use ltm.Storage.Select.Meaning.{Row}
use ltm.Storage.Select.{Arg, int}
use ltm.Storage.Statements.{has_multiple_statements}
use ltm.Storage.Store.{Rows}
use ltm.Storage.Write.{Database, Store}

abbrev pub max_raw_sql_rows : ℕ
max_raw_sql_rows = 10000

pub record Answer (Cell : Type 0) : Type 0 where
  pub columns : List Text
  pub rows : List (Result Error (List Cell))
  pub rows_error : Option Error

module _ {Cell : Type 0} where
  -- The loop over the rows, with how many it has.
  unfoldable pub raw_rows : ℕ → List (Result Error (List Cell)) → Result Error (List (List Cell))
  raw_rows n [] = ok []
  raw_rows n (r ∷ rows) = elim (leb max_raw_sql_rows n) [
    | true ↦ err too_many_rows
    | false ↦ (do cells ← r; rest ← raw_rows (suc n) rows; ok (cells ∷ rest))
  ]

  abbrev pub unless_error :
      List Text × List (List Cell) → Option Error → Result Error (List Text × List (List Cell))
  unless_error out none = ok out
  unless_error out (some e) = err e

  abbrev pub raw_answer : Answer Cell → Result Error (List Text × List (List Cell))
  raw_answer a = do rows ← raw_rows 0 a.rows; unless_error (a.columns, rows) a.rows_error

  -- The columns and rows; the code also returns them beside an error behind the last row.
  unfoldable pub raw_sql :
      {d : Database}
      → (Text → Result Error (Answer Cell))
      → Store d
      → Text
      → Result Error (List Text × List (List Cell))
  raw_sql db s query =
      if not s.is_read_only
      then err needs_read_only
      else if has_multiple_statements query
      then err several_statements
      else db query >>= raw_answer

pub record SocketRecord : Type 0 where
  pub pid : ℤ
  pub comm : Text
  pub local_port : ℤ
  pub state : Text
  pub seen_at : Time

abbrev pub socket_of : Row → SocketRecord
socket_of r = record {
  pid = r.pid;
  comm = r.comm;
  local_port = r.local_port;
  state = r.action;
  seen_at = unix r.ts;
}

abbrev sockets_text : Text
sockets_text =
    codes
      "\n\t\tSELECT pid, comm, local_port, action, ts\n\t\tFROM events\n\t\tWHERE category = 'network' AND (local_addr != '' OR remote_addr != '')\n\t\tORDER BY ts DESC, id DESC LIMIT ?"

abbrev sockets_limit : ℤ → ℤ
sockets_limit limit = if leb_ℤ limit (pos 0) then pos 200 else limit

unfoldable pub sockets : Rows → ℤ → Result Error (List SocketRecord)
sockets db limit = do
  rows ← db sockets_text (int (sockets_limit limit) ∷ [])
  ok (map socket_of rows)
