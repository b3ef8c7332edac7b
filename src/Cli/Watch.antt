-- ===== src/Cli/Watch.antt =====
-- internal/cli/commands_runtime.go: watchStep and watchPredicate (and where runWatch begins, in Start);
-- internal/storage/query.go: EventsAfterID. The writer is the argument `write`: whether the line of an event fails behind those
-- that were printed.
pub mod Places
pub mod Delivers
pub mod Start
use ltm.Prelude.{
  ℕ, ℤ, pos, Bool, true, false, not, ◌&&◌, List, [], ◌∷◌, ◌++◌, Text, codes, Option, none, some,
  member, any, eq_ℤ, ltb, leb_ℤ, is_empty, keep, if◌then◌else◌, Result, ok, err,
}
use ltm.Storage.Event.{Event, Error}
use ltm.Storage.Select.{Arg, int, event_columns, is_nil}
use ltm.Storage.Store.{Rows, Metadata, query_events}

abbrev after_text : Text
after_text =
    codes "SELECT " ++ event_columns ++ codes " FROM events WHERE id > ? ORDER BY id ASC LIMIT ?"

unfoldable pub after_limit : ℤ → ℤ
after_limit limit = if leb_ℤ limit (pos 0) then pos 500 else limit

unfoldable pub events_after_id : (Text → Option Metadata) → Rows → ℕ → ℤ → Result Error (List Event)
events_after_id unmarshal db after_id limit =
    query_events unmarshal db after_text (int (pos after_id) ∷ int (after_limit limit) ∷ [])

unfoldable pub watch_predicate : List Text → List Text → List ℤ → Event → Bool
watch_predicate categories comms pids ev =
    if not (is_nil categories) && not (member ev.category categories)
    then false
    else if not (is_nil comms) && not (member ev.comm comms)
    then false
    else if not (is_nil pids) && not (any (λ p. eq_ℤ p ev.pid) pids)
    then false
    else true

-- The high-water id, and the events that were printed.
pub record Watch : Type 0 where
  pub last_id : ℕ
  pub printed : List Event

abbrev pub raise_id : Event → Watch → Watch
raise_id ev w = record w { last_id = if ltb w.last_id ev.id then ev.id else w.last_id }

module _ (match_event : Event → Bool) (write : List Event → Event → Option Error) where
  abbrev pub write_event : Event → Watch → Option Error → Result (Watch × Error) Watch
  write_event ev w (some e) = err (w, e)
  write_event ev w none = ok (record w { printed = w.printed ++ ev ∷ [] })

  unfoldable pub print_event : Event → Watch → Result (Watch × Error) Watch
  print_event ev w = if match_event ev then write_event ev w (write w.printed ev) else ok w

  -- The loop over the events that were fetched.
  unfoldable pub print_events : List Event → Watch → Watch × Option Error
  print_events [] w = (w, none)
  print_events (ev ∷ events) w = elim (print_event ev w) [
    | ok printed ↦ print_events events (raise_id ev printed)
    | err (left, e) ↦ (left, some e)
  ]

  abbrev pub print_fetched : Watch → Result Error (List Event) → Watch × Option Error
  print_fetched w (err e) = (w, some e)
  print_fetched w (ok events) = print_events events w

  -- `fetch` is the store's EventsAfterID.
  unfoldable pub watch_step : (ℕ → ℤ → Result Error (List Event)) → ℤ → Watch → Watch × Option Error
  watch_step fetch limit w = print_fetched w (fetch w.last_id limit)
