-- ===== src/Storage/Store/ReadsBack.antt =====
-- What InsertEvents stores, queryEvents reads back: event_row and scan_event against each other.
use mathlib.Core.Option.{some-injective}
use ltm.Prelude.{
  ℕ, suc, ◌≡◌, refl, sym, ap, ◌∙◌, List, [], ◌∷◌, ◌++◌, Text, codes, text_eq, text_eq_iff, map,
  Option, none, some, Bool-cases, inl, inr, Result, ok, err, ◌>>=◌,
}
use ltm.Go.Time.{InRange, Time, unix-unix_nano}
use ltm.Storage.Event.{Error, Event}
use ltm.Storage.Select.Meaning.{Row}
use ltm.Storage.Store.{
  Metadata, scan_event, scan_events, scan_metadata, schema_version, with_metadata,
}
use ltm.Storage.Write.Atomic.{
  AllOrNothing, event_rows, insert_events-AllOrNothing, metadata_or_nil, stored,
}
use ltm.Storage.Write.{Calls, Database, Store, content, event_row, insert_events, or_object, stamp}

abbrev pub no_id : Event → Event
no_id ev = record ev { id = 0 }

-- An event as it is read back: without an id, with the version of the schema, with the time of the
-- insert if it had none, and with `{}` for no raw text.
abbrev pub as_read : Time → Event → Event
as_read now ev = record ev {
  id = 0;
  schema_version = schema_version;
  timestamp = stamp now ev.timestamp;
  raw = or_object ev.raw;
}

abbrev pub all_as_read : Calls → ℕ → List Event → List Event
all_as_read c i [] = []
all_as_read c i (ev ∷ events) = as_read (c.now i) ev ∷ all_as_read c (suc i) events

-- The decoder of encoding/json reads the metadata of each event back, and UnixNano is defined on each
-- time.
abbrev pub Readable : Calls → (Text → Option Metadata) → ℕ → List Event → Type 0
Readable c unmarshal i [] = Unit
Readable c unmarshal i (ev ∷ events) =
    (((text : Text) × (c.marshal ev.metadata ≡ some text) × (unmarshal text ≡ some ev.metadata))
      × InRange (stamp (c.now i) ev.timestamp))
    × Readable c unmarshal (suc i) events

abbrev mapped : {A B : Type 0} → (A → B) → Result Error A → Result Error B
mapped f (ok a) = ok (f a)
mapped f (err e) = err e

abbrev joined : Result Error (List Event) → Result Error (List Event) → Result Error (List Event)
joined (ok xs) (ok ys) = ok (xs ++ ys)
joined (ok xs) (err e) = err e
joined (err e) r = err e

module _ (unmarshal : Text → Option Metadata) (no_text : unmarshal [] ≡ none)
    (no_members : unmarshal (codes "{}") ≡ some []) where
  scan_metadata-unmarshal :
      (text : Text) (m : Metadata) → unmarshal text ≡ some m → scan_metadata unmarshal text ≡ ok m
  unfolding scan_metadata
  scan_metadata-unmarshal [] m h = absurd (cc (no_text, h))
  scan_metadata-unmarshal (x ∷ xs) m h = elim (Bool-cases (text_eq (x ∷ xs) (codes "{}"))) [
    | inl e ↦
        let same : x ∷ xs ≡ codes "{}" = (text_eq_iff (x ∷ xs) (codes "{}")).0 e in
        rw e (ap ok (some-injective _ _ (sym no_members ∙ ap unmarshal (sym same) ∙ h)))
    | inr e ↦ rw e (rw h refl)
  ]

  scan_event-event_row :
      (now : Time) (text : Text) (ev : Event)
      → unmarshal text ≡ some ev.metadata
      → InRange (stamp now ev.timestamp)
      → scan_event unmarshal (event_row now text ev) ≡ ok (as_read now ev)
  unfolding scan_event event_row
  scan_event-event_row now text ev h range = rw (scan_metadata-unmarshal text ev.metadata h) (
      ap (λ (t : Time). ok (record (as_read now ev) { timestamp = t }))
        (unix-unix_nano (stamp now ev.timestamp) range))

  scan_event-no_id :
      (r : Row) → scan_event unmarshal (record r { id = 0 }) ≡ mapped no_id (scan_event unmarshal r)
  unfolding scan_event
  scan_event-no_id r = go (scan_metadata unmarshal r.metadata)
    where
      go :
          (m : Result Error Metadata)
          → (m >>= λ x. ok (with_metadata unmarshal (record r { id = 0 }) x))
            ≡ mapped no_id (m >>= λ x. ok (with_metadata unmarshal r x))
      go (ok m) = refl
      go (err e) = refl

  scan_events-content :
      (rows : List Row)
      → scan_events unmarshal (content rows) ≡ mapped (map no_id) (scan_events unmarshal rows)
  unfolding scan_events
  scan_events-content [] = refl
  scan_events-content (r ∷ rows) =
      rw (scan_event-no_id r, scan_events-content rows)
        (go (scan_event unmarshal r) (scan_events unmarshal rows))
    where
      go :
          (a : Result Error Event) (b : Result Error (List Event))
          → (mapped no_id a >>= λ ev. mapped (map no_id) b >>= λ events. ok (ev ∷ events))
            ≡ mapped (map no_id) (a >>= λ ev. b >>= λ events. ok (ev ∷ events))
      go (ok ev) (ok events) = refl
      go (ok ev) (err e) = refl
      go (err e) b = refl

  scan_events-append :
      (xs ys : List Row)
      → scan_events unmarshal (xs ++ ys)
        ≡ joined (scan_events unmarshal xs) (scan_events unmarshal ys)
  unfolding scan_events
  scan_events-append [] ys = own (scan_events unmarshal ys)
    where
      own : (r : Result Error (List Event)) → r ≡ joined (ok []) r
      own (ok events) = refl
      own (err e) = refl
  scan_events-append (r ∷ xs) ys =
      rw (scan_events-append xs ys)
        (go (scan_event unmarshal r) (scan_events unmarshal xs) (scan_events unmarshal ys))
    where
      go :
          (a : Result Error Event) (b c : Result Error (List Event))
          → (a >>= λ ev. joined b c >>= λ events. ok (ev ∷ events))
            ≡ joined (a >>= λ ev. b >>= λ events. ok (ev ∷ events)) c
      go (ok ev) (ok events) (ok more) = refl
      go (ok ev) (ok events) (err e) = refl
      go (ok ev) (err e) c = refl
      go (err e) b c = refl

  scan_events-event_rows :
      (c : Calls) (i : ℕ) (events : List Event)
      → Readable c unmarshal i events
      → scan_events unmarshal (content (event_rows c i events)) ≡ ok (all_as_read c i events)
  unfolding scan_events event_rows event_row
  scan_events-event_rows c i [] h = refl
  scan_events-event_rows c i (ev ∷ events) h =
      let e : scan_event unmarshal
            (event_row (c.now i) (metadata_or_nil (c.marshal ev.metadata)) ev)
          ≡ ok (as_read (c.now i) ev) =
        ap (λ (o : Option Text). scan_event unmarshal (event_row (c.now i) (metadata_or_nil o) ev))
          h.0.0.1
        ∙ scan_event-event_row (c.now i) h.0.0.0 ev h.0.0.2 h.0.1 in
      rw (e, scan_events-event_rows c (suc i) events h.1) refl

  mapped-ok :
      (r : Result Error (List Event)) (xs : List Event)
      → mapped (map no_id) r ≡ ok xs
      → (events : List Event) × (r ≡ ok events) × (map no_id events ≡ xs)
  mapped-ok (ok events) xs h = (events, refl, cc)
  mapped-ok (err e) xs h = absurd (cc)

  -- If InsertEvents returns no error, the decoder of JSON reads the metadata of its events back and
  -- their times lie in the range of UnixNano, then wherever the table scanned before it scans behind:
  -- to what it scanned to and the inserted events, in their order. The ids are left out of the
  -- comparison; an event comes back with the schema's version, with the time of the insert if it had
  -- none, and with `{}` for no raw text, and else as it was.
  pub scan_events-insert_events :
      {d : Database} (c : Calls) (s : Store d) (events before : List Event)
      → Readable c unmarshal 0 events
      → (insert_events c s events).error ≡ none
      → scan_events unmarshal (stored s) ≡ ok before
      → (after : List Event) × (scan_events unmarshal (stored (insert_events c s events).store)
          ≡ ok after)
        × (map no_id after ≡ map no_id before ++ all_as_read c 0 events)
  scan_events-insert_events c s events before readable done scanned =
      mapped-ok (scan_events unmarshal (stored (insert_events c s events).store)) _
        (read (insert_events-AllOrNothing c s events))
    where
      read :
          AllOrNothing c s events (insert_events c s events)
          → mapped (map no_id) (scan_events unmarshal (stored (insert_events c s events).store))
            ≡ ok (map no_id before ++ all_as_read c 0 events)
      read (inr nothing) = absurd (nothing.0 done)
      read (inl all) =
          sym (scan_events-content (stored (insert_events c s events).store))
          ∙ ap (scan_events unmarshal) all.1
          ∙ scan_events-append (content (stored s)) (content (event_rows c 0 events))
          ∙ ap (λ r. joined r (scan_events unmarshal (content (event_rows c 0 events))))
              (scan_events-content (stored s) ∙ ap (mapped (map no_id)) scanned)
          ∙ ap (joined (ok (map no_id before))) (scan_events-event_rows c 0 events readable)
