-- ===== src/Storage/Write/Prunes.antt =====
-- What Prune leaves in the table, on every path.
use ltm.Prelude.{
  ◌≡◌, Bool, true, List, ◌==◌, ◌&&◌, none, some, not, keep, length, if◌then◌else◌, err,
}
use ltm.Go.Time.{Time, unix_nano, ltb_64}
use ltm.Storage.Event.{Error, nil_dereference, read_only}
use ltm.Storage.Select.Meaning.{Row}
use ltm.Storage.Write.Atomic.{stored}
use ltm.Storage.Write.{Database, Pruned, Store, with_state}

module _ (cutoff : Time) where
  -- The rows before the cutoff, and the others.
  abbrev pub older : List Row → List Row
  older = keep (λ row. ltb_64 row.ts (unix_nano cutoff))

  abbrev pub newer : List Row → List Row
  newer = keep (λ row. not (ltb_64 row.ts (unix_nano cutoff)))

module _ {d : Database} (s : Store d) (cutoff : Time) (vacuum : Bool) where
  -- Whether VACUUM is run: it is asked for, and there were rows to remove.
  abbrev pub is_vacuumed : Bool
  is_vacuumed = vacuum && not (length (older cutoff (stored s)) == 0)

  -- What Prune has done.
  pub data IsPruned (r : Pruned d) : Type 0 where
    refused :
        s.is_read_only ≡ true
        → r ≡ record { store = s; removed = 0; error = some read_only }
        → IsPruned r
    crashed :
        s.db ≡ none
        → r ≡ record { store = s; removed = 0; error = some nil_dereference }
        → IsPruned r
    undeleted :
        (db : d.State) (e : Error)
        → s.db ≡ some db
        → (d.delete_before db (unix_nano cutoff)).1 ≡ some e
        → r.error ≡ some e
        → r.removed ≡ 0
        → stored r.store ≡ stored s
        → IsPruned r
    uncounted :
        (db : d.State) (e : Error)
        → s.db ≡ some db
        → d.rows_affected db (unix_nano cutoff) ≡ err e
        → r.error ≡ some e
        → r.removed ≡ 0
        → stored r.store ≡ newer cutoff (stored s)
        → IsPruned r
    counted :
        (db : d.State)
        → d.rows db ≡ newer cutoff (stored s)
        → r.removed ≡ length (older cutoff (stored s))
        → stored r.store ≡ newer cutoff (stored s)
        → r.store ≡ with_state s (if is_vacuumed then (d.vacuum db).0 else db)
        → r.error ≡ (if is_vacuumed then (d.vacuum db).1 else none)
        → IsPruned r
