-- ===== src/Tests/Reads.antt =====
-- Events that are stored and read back, at a concrete table.
use ltm.Prelude.{
  ◌+◌, ◌≡◌, refl, List, [], ◌∷◌, ◌++◌, Text, codes, map, Option, none, some, text_eq, arith,
  if◌then◌else◌, ok, false,
}
use ltm.Go.Time.{epoch}
use ltm.Storage.Event.{Event}
use ltm.Storage.Store.ReadsBack.{all_as_read, no_id, scan_events-insert_events}
use ltm.Storage.Store.{Metadata, scan_event, scan_events, scan_metadata, with_metadata}
use ltm.Storage.Write.Atomic.{stored}
use ltm.Storage.Write.{
  Calls, Store, event_row, finish_insert, insert_all, insert_event, insert_events,
}
use ltm.Tests.Stores.{calls, event_one, event_two, row_one, table}

-- A decoder for the one text that stands in the table.
abbrev decoder : Text → Option Metadata
decoder text = if text_eq text (codes "{}") then some [] else none

abbrev pub timed : Calls
timed = record calls { now = λ n. epoch + 7 }

abbrev two_events : List Event
two_events = record event_one { timestamp = epoch + 5 } ∷ record event_two { timestamp = 0 } ∷ []

abbrev one_row : Store table
one_row = record { db = some (row_one ∷ []); is_read_only = false }

abbrev first_event : List Event
first_event = with_metadata decoder row_one [] ∷ []

scans : scan_events decoder (stored one_row) ≡ ok first_event
unfolding scan_events scan_event scan_metadata text_eq event_row
scans = refl

inserts : (insert_events timed one_row two_events).error ≡ none
unfolding insert_events insert_all insert_event finish_insert
inserts = refl

scan_events-insert_events_example :
    (after : List Event) × (scan_events decoder
        (stored (insert_events timed one_row two_events).store)
      ≡ ok after)
    × (map no_id after ≡ map no_id first_event ++ all_as_read timed 0 two_events)
unfolding text_eq
scan_events-insert_events_example =
    scan_events-insert_events decoder refl refl timed one_row two_events first_event
      (
        ((codes "{}", refl, refl), (omega arith, omega arith)),
        (((codes "{}", refl, refl), (omega arith, omega arith)), tt),
      )
      inserts scans
