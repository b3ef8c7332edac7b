-- ===== src/Storage/Write.antt =====
-- internal/storage/write.go, `InsertEvents`, and maintenance.go, `Prune`. SQLite's transactions are
-- the interface `Database`; its laws are that an insert adds one pending row, that a commit adds the
-- pending rows to the table, and that a transaction that is not committed leaves the table alone.
pub mod Atomic
pub mod Prunes
use ltm.Prelude.{
  ℕ, suc, ◌+◌, ◌≡◌, refl, ◌⊎◌, Bool, true, false, List, [], ◌∷◌, ◌++◌, Text, codes, Option, none,
  some, is_empty, not, keep, map, length, ◌-◌, ◌==◌, ◌||◌, if◌then◌else◌, Result, ok, err, ◌>>=◌,
}
use ltm.Go.Time.{Time, is_zero, unix_nano, add_64, ltb_64}
use ltm.Storage.Event.{Event, Value, Error, read_only, closed, malformed, nil_dereference}
use ltm.Storage.Select.Meaning.{Row}

-- Rows but for their ids, which SQLite gives.
abbrev pub content : List Row → List Row
content = map (λ (r : Row). record r { id = 0 })

-- The outcome of a call on the database: the state behind it, and an error if it failed.
-- `rows_affected` is what RowsAffected says of the DELETE in that state.
pub record Database : Type 1 where
  pub State : Type 0
  pub Tx : Type 0
  pub rows : State → List Row
  pub pending : Tx → List Row
  pub begin : State → Result Error Tx
  pub insert : Tx → Row → Result Error Tx
  pub commit : State → Tx → State × Option Error
  pub rollback : State → Tx → State
  pub delete_before : State → ℕ → State × Option Error
  pub rows_affected : State → ℕ → Result Error ℕ
  pub vacuum : State → State × Option Error
  pub begin_law : (s : State) {t : Tx} → begin s ≡ ok t → pending t ≡ []
  pub insert_law : (t : Tx) (r : Row) {u : Tx} → insert t r ≡ ok u → pending u ≡ pending t ++ r ∷ []
  pub commit_law :
      (s : State) (t : Tx)
      → (commit s t).1 ≡ none
      → content (rows (commit s t).0) ≡ content (rows s) ++ content (pending t)
  pub commit_error_law :
      (s : State) (t : Tx) (e : Error) → (commit s t).1 ≡ some e → rows (commit s t).0 ≡ rows s
  pub rollback_law : (s : State) (t : Tx) → rows (rollback s t) ≡ rows s
  pub delete_law :
      (s : State) (cutoff : ℕ)
      → (delete_before s cutoff).1 ≡ none
      → rows (delete_before s cutoff).0 ≡ keep (λ r. not (ltb_64 r.ts cutoff)) (rows s)
  pub delete_error_law :
      (s : State) (cutoff : ℕ) (e : Error)
      → (delete_before s cutoff).1 ≡ some e
      → rows (delete_before s cutoff).0 ≡ rows s
  pub rows_affected_law :
      (s : State) (cutoff : ℕ) {n : ℕ}
      → (delete_before s cutoff).1 ≡ none
      → rows_affected s cutoff ≡ ok n
      → n ≡ length (keep (λ r. ltb_64 r.ts cutoff) (rows s))
  pub vacuum_law : (s : State) → rows (vacuum s).0 ≡ rows s

-- What the loop reads from outside: the clock, the write context and json.Marshal.
pub record Calls : Type 0 where
  pub now : ℕ → Time
  pub context_error : ℕ → Option Error
  pub marshal : List (Text × Value) → Option Text

-- `if ev.Timestamp.IsZero() { ev.Timestamp = time.Now() }`.
abbrev pub stamp : Time → Time → Time
stamp now t = if is_zero t then now else t

abbrev pub or_object : Text → Text
or_object [] = codes "{}"
or_object (c ∷ s) = c ∷ s

-- The values that are bound to the INSERT; SQLite gives the id.
unfoldable pub event_row : Time → Text → Event → Row
event_row now metadata ev = record {
  id = 0;
  ts = unix_nano (stamp now ev.timestamp);
  category = ev.category;
  action = ev.action;
  pid = ev.pid;
  ppid = ev.ppid;
  uid = ev.uid;
  comm = ev.comm;
  exe = ev.exe;
  container_id = ev.container_id;
  cgroup_path = ev.cgroup_path;
  path = ev.path;
  old_path = ev.old_path;
  local_addr = ev.local_addr;
  local_port = ev.local_port;
  remote_addr = ev.remote_addr;
  remote_port = ev.remote_port;
  remote_host = ev.remote_host;
  target_pid = ev.target_pid;
  exit_code = ev.exit_code;
  dropped_before = ev.dropped_before;
  metadata = metadata;
  raw = or_object ev.raw;
}

abbrev unless_cancelled : Option Error → Result Error (Unit {0})
unless_cancelled none = ok tt
unless_cancelled (some e) = err e

abbrev marshalled : Option Text → Result Error Text
marshalled none = err malformed
marshalled (some s) = ok s

-- How far the loop came.
pub record Progress (d : Database) : Type 0 where
  pub tx : d.Tx
  pub dropped : ℕ
  pub error : Option Error

module _ (d : Database) (c : Calls) where
  -- One round of the loop: the context, the time, the metadata, and the statement.
  unfoldable pub insert_event : ℕ → d.Tx → Event → Result Error d.Tx
  insert_event i t ev = do
    live ← unless_cancelled (c.context_error i)
    metadata ← marshalled (c.marshal ev.metadata)
    d.insert t (event_row (c.now i) metadata ev)

  -- The loop, with the number of the event and the sum of DroppedBefore so far.
  unfoldable pub insert_all : ℕ → ℕ → d.Tx → List Event → Progress d
  insert_all i dropped t [] = record { tx = t; dropped = dropped; error = none }
  insert_all i dropped t (ev ∷ events) = elim (insert_event i t ev) [
    | ok u ↦ insert_all (suc i) (add_64 dropped ev.dropped_before) u events
    | err e ↦ record { tx = t; dropped = dropped; error = some e }
  ]

-- `db` is `none` behind Close.
pub record Store (d : Database) : Type 0 where
  pub db : Option d.State
  pub is_read_only : Bool

-- InsertStats and the error of InsertEvents, with the store that the call leaves.
pub record Inserted (d : Database) : Type 0 where
  pub store : Store d
  pub dropped : ℕ
  pub error : Option Error

module _ {d : Database} where
  abbrev pub with_state : Store d → d.State → Store d
  with_state s db = record { db = some db; is_read_only = s.is_read_only }

  abbrev pub failed : Store d → ℕ → Error → Inserted d
  failed s dropped e = record { store = s; dropped = dropped; error = some e }

  -- Commit, or the deferred rollback where the loop returned early.
  unfoldable pub finish_insert : Store d → d.State → d.Tx → ℕ → Option Error → Inserted d
  finish_insert s db t dropped none = record {
    store = with_state s (d.commit db t).0;
    dropped = dropped;
    error = (d.commit db t).1;
  }
  finish_insert s db t dropped (some e) = failed (with_state s (d.rollback db t)) dropped e

module _ {d : Database} (c : Calls) where
  abbrev pub insert_in : Store d → d.State → List Event → Result Error d.Tx → Inserted d
  insert_in s db events (err e) = failed s 0 e
  insert_in s db events (ok t) =
      let p = insert_all d c 0 0 t events in finish_insert s db p.tx p.dropped p.error

  abbrev pub insert_open : Store d → List Event → Option d.State → Inserted d
  insert_open s events none = failed s 0 closed
  insert_open s events (some db) =
      if s.is_read_only then failed s 0 read_only else insert_in s db events (d.begin db)

  unfoldable pub insert_events : Store d → List Event → Inserted d
  insert_events s [] = record { store = s; dropped = 0; error = none }
  insert_events s (ev ∷ events) = insert_open s (ev ∷ events) s.db

-- Prune: the store, the number of rows removed, and the error. A count is not given on an error of
-- the DELETE or of its count; one of the VACUUM keeps it.
pub record Pruned (d : Database) : Type 0 where
  pub store : Store d
  pub removed : ℕ
  pub error : Option Error

module _ {d : Database} where
  abbrev pub vacuum_after : Store d → d.State → ℕ → Pruned d
  vacuum_after s db n = record {
    store = with_state s (d.vacuum db).0;
    removed = n;
    error = (d.vacuum db).1;
  }

  abbrev pub removed_rows : Store d → d.State → Bool → Result Error ℕ → Pruned d
  removed_rows s db vacuum (err e) = record { store = with_state s db; removed = 0; error = some e }
  removed_rows s db vacuum (ok n) =
      if n == 0 || not vacuum
      then record { store = with_state s db; removed = n; error = none }
      else vacuum_after s db n

  abbrev pub count_removed : Store d → Bool → Result Error ℕ → d.State × Option Error → Pruned d
  count_removed s vacuum counted (db, some e) = record {
    store = with_state s db;
    removed = 0;
    error = some e;
  }
  count_removed s vacuum counted (db, none) = removed_rows s db vacuum counted

  abbrev pub prune_open : Store d → Time → Bool → Option d.State → Pruned d
  -- The nil pointer of a closed store is dereferenced.
  prune_open s cutoff vacuum none = record { store = s; removed = 0; error = some nil_dereference }
  prune_open s cutoff vacuum (some db) =
      count_removed s vacuum (d.rows_affected db (unix_nano cutoff))
        (d.delete_before db (unix_nano cutoff))

  unfoldable pub prune : Store d → Time → Bool → Pruned d
  prune s cutoff vacuum =
      if s.is_read_only
      then record { store = s; removed = 0; error = some read_only }
      else prune_open s cutoff vacuum s.db
