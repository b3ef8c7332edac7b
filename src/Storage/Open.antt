-- ===== src/Storage/Open.antt =====
-- internal/storage/open.go: Open, OpenReadOnly, dsn and Close, with the statements of
-- internal/storage/schema_gen.go. The file system and the driver are the record Files; the calls that
-- were made of them are kept in order.
pub mod Dsn
pub mod Leaves
use ltm.Prelude.{
  Bool, true, false, List, [], ◌∷◌, ◌++◌, Text, codes, Option, none, some, is_empty, if◌then◌else◌,
  Result, ok, err,
}
use ltm.Go.Url.{encode_values, url_string}
use ltm.Storage.Event.{Error}

-- What os.Stat says of a path.
pub data Stat : Type 0 where
  present missing : Stat
  unreadable : Error → Stat

-- filepath.Abs, os.MkdirAll of the path's directory, os.Stat, sql.Open and Ping at a DSN, and a
-- statement at a DSN; each with its error.
pub record Files : Type 0 where
  pub absolute : Text → Result Error Text
  pub make_directory : Text → Option Error
  pub stat : Text → Stat
  pub connect : Text → Option Error
  pub ping : Text → Option Error
  pub exec : Text → Text → Option Error

pub data Call : Type 0 where
  directory_made : Text → Call
  opened : Text → Call
  executed : Text → Text → Call
  closed : Text → Call

pub data OpenError : Type 0 where
  empty_path : OpenError
  not_resolved no_directory unreadable_file not_opened no_answer no_schema : Error → OpenError
  no_database : Text → OpenError

-- The store that is returned: its connection's DSN, and the flag.
pub record Connection : Type 0 where
  pub at_dsn : Text
  pub is_read_only : Bool

pub record Opening : Type 0 where
  pub calls : List Call
  pub result : Result OpenError Connection

abbrev pub fails : List Call → OpenError → Opening
fails calls e = record { calls = calls; result = err e }

abbrev pub succeeds : List Call → Text → Bool → Opening
succeeds calls at_dsn read_only = record {
  calls = calls;
  result = ok (record { at_dsn = at_dsn; is_read_only = read_only });
}

abbrev pub first : Call → Opening → Opening
first c o = record o { calls = c ∷ o.calls }

abbrev pub pragmas : Bool → List Text
pragmas read_only =
    codes "busy_timeout(5000)"
    ∷ codes "journal_mode(wal)"
    ∷ codes "synchronous(normal)"
    ∷ (if read_only then codes "query_only(true)" ∷ [] else [])

-- The path is a rooted one, which filepath.Abs has made.
unfoldable pub dsn : Text → Bool → Text
unfolding url_string encode_values
dsn path read_only =
    url_string (codes "file") path (encode_values (codes "_pragma") (pragmas read_only))

abbrev pub schema_statements : List Text
schema_statements =
    codes
      "CREATE TABLE IF NOT EXISTS events (\n\tid INTEGER PRIMARY KEY AUTOINCREMENT,\n\tts INTEGER NOT NULL,\n\tcategory TEXT NOT NULL DEFAULT '',\n\taction TEXT NOT NULL DEFAULT '',\n\tpid INTEGER NOT NULL DEFAULT 0,\n\tppid INTEGER NOT NULL DEFAULT 0,\n\tuid INTEGER NOT NULL DEFAULT 0,\n\tcomm TEXT NOT NULL DEFAULT '',\n\texe TEXT NOT NULL DEFAULT '',\n\tcontainer_id TEXT NOT NULL DEFAULT '',\n\tcgroup_path TEXT NOT NULL DEFAULT '',\n\tpath TEXT NOT NULL DEFAULT '',\n\told_path TEXT NOT NULL DEFAULT '',\n\tlocal_addr TEXT NOT NULL DEFAULT '',\n\tlocal_port INTEGER NOT NULL DEFAULT 0,\n\tremote_addr TEXT NOT NULL DEFAULT '',\n\tremote_port INTEGER NOT NULL DEFAULT 0,\n\tremote_host TEXT NOT NULL DEFAULT '',\n\ttarget_pid INTEGER NOT NULL DEFAULT 0,\n\texit_code INTEGER NOT NULL DEFAULT 0,\n\tdropped_before INTEGER NOT NULL DEFAULT 0,\n\tmetadata TEXT NOT NULL DEFAULT '{}',\n\traw TEXT NOT NULL DEFAULT '{}'\n)"
    ∷ codes "CREATE INDEX IF NOT EXISTS idx_events_ts ON events(ts)"
    ∷ codes "CREATE INDEX IF NOT EXISTS idx_events_pid_ts ON events(pid, ts)"
    ∷ codes "CREATE INDEX IF NOT EXISTS idx_events_path ON events(path)"
    ∷ codes "CREATE INDEX IF NOT EXISTS idx_events_cat_action_ts ON events(category, action, ts)"
    ∷ []

module _ (f : Files) where
  -- The loop over the schema's statements; one that fails closes the database.
  unfoldable pub init_schema : Text → List Text → Opening
  init_schema at_dsn [] = succeeds [] at_dsn false
  init_schema at_dsn (stmt ∷ rest) = elim (f.exec at_dsn stmt) [
    | none ↦ first (executed at_dsn stmt) (init_schema at_dsn rest)
    | some e ↦ fails (executed at_dsn stmt ∷ closed at_dsn ∷ []) (no_schema e)
  ]

  -- sql.Open and Ping, with what follows.
  abbrev pub pinged : Text → Opening → Option Error → Opening
  pinged at_dsn next none = first (opened at_dsn) next
  pinged at_dsn next (some e) = fails (opened at_dsn ∷ closed at_dsn ∷ []) (no_answer e)

  abbrev pub connected : Text → Opening → Option Error → Opening
  connected at_dsn next none = pinged at_dsn next (f.ping at_dsn)
  connected at_dsn next (some e) = fails [] (not_opened e)

  abbrev pub in_directory : Text → Option Error → Opening
  in_directory path (some e) = fails [] (no_directory e)
  in_directory path none =
      let at_dsn = dsn path false in
      first (directory_made path)
        (connected at_dsn (init_schema at_dsn schema_statements) (f.connect at_dsn))

  abbrev pub create_at : Result Error Text → Opening
  create_at (err e) = fails [] (not_resolved e)
  create_at (ok path) = in_directory path (f.make_directory path)

  -- Open.
  unfoldable pub open_store : Text → Opening
  unfolding dsn init_schema
  open_store path = if is_empty path then fails [] empty_path else create_at (f.absolute path)

  abbrev pub found : Text → Stat → Opening
  found path missing = fails [] (no_database path)
  found path (unreadable e) = fails [] (unreadable_file e)
  found path present =
      let at_dsn = dsn path true in connected at_dsn (succeeds [] at_dsn true) (f.connect at_dsn)

  abbrev pub find_at : Result Error Text → Opening
  find_at (err e) = fails [] (not_resolved e)
  find_at (ok path) = found path (f.stat path)

  unfoldable pub open_read_only : Text → Opening
  unfolding dsn
  open_read_only path = if is_empty path then fails [] empty_path else find_at (f.absolute path)

-- Close, over the connection's DSN: behind an earlier Close there is none.
abbrev pub close_store : Option Text → List Call × Option Text
close_store none = ([], none)
close_store (some at_dsn) = (closed at_dsn ∷ [], none)
