-- ===== src/Storage/Write/Atomic.antt =====
-- What InsertEvents leaves in the table, on every path.
use ltm.Prelude.{
  ℕ, suc, ◌≡◌, ◌≢◌, refl, sym, ap, ◌∙◌, ◌⊎◌, Bool, true, false, List, [], ◌∷◌, ◌++◌, Text, Option,
  none, some, append_assoc, append-nil, arith, Result, ok, err, inl, inr, if◌then◌else◌,
}
use ltm.Go.Time.{add_64}
use ltm.Storage.Event.{Event, Error, read_only}
use ltm.Storage.Select.Meaning.{Row}
use ltm.Storage.Write.{
  failed, Database, content, Calls, event_row, insert_event, insert_all, Progress, Store, Inserted,
  finish_insert, insert_events, insert_in, insert_open,
}

abbrev pub metadata_or_nil : Option Text → Text
metadata_or_nil none = []
metadata_or_nil (some metadata) = metadata

-- The rows of the events from number `i` on.
unfoldable pub event_rows : Calls → ℕ → List Event → List Row
event_rows c i [] = []
event_rows c i (ev ∷ events) =
    event_row (c.now i) (metadata_or_nil (c.marshal ev.metadata)) ev ∷ event_rows c (suc i) events

-- The sum of DroppedBefore, as the int64 that the code adds up.
unfoldable pub dropped_sum : ℕ → List Event → ℕ
dropped_sum n [] = n
dropped_sum n (ev ∷ events) = dropped_sum (add_64 n ev.dropped_before) events

module _ {d : Database} where
  abbrev pub rows_in : Store d → Option d.State → List Row
  rows_in s none = []
  rows_in s (some db) = d.rows db

  -- The table of a store.
  abbrev pub stored : Store d → List Row
  stored s = rows_in s s.db

module _ (d : Database) (c : Calls) where
  insert_event-pending :
      (i : ℕ) (t : d.Tx) (ev : Event) {u : d.Tx}
      → insert_event d c i t ev ≡ ok u
      → d.pending u
        ≡ d.pending t ++ event_row (c.now i) (metadata_or_nil (c.marshal ev.metadata)) ev ∷ []
  unfolding insert_event
  insert_event-pending i t ev {u} h = ground (
    arith,
    d.insert_law t (event_row (c.now i) (metadata_or_nil (c.marshal ev.metadata)) ev) {u = u},
  )

  -- A loop that ends without an error has added a row for each event, and their dropped counts.
  record Complete (i n : ℕ) (t : d.Tx) (events : List Event) (p : Progress d) : Type 0 where
    added : d.pending p.tx ≡ d.pending t ++ event_rows c i events
    summed : p.dropped ≡ dropped_sum n events

  insert_all-Complete :
      (i n : ℕ) (t : d.Tx) (events : List Event)
      → (insert_all d c i n t events).error ≡ none
      → Complete i n t events (insert_all d c i n t events)
  unfolding insert_all event_rows dropped_sum
  insert_all-Complete i n t [] h = record { added = sym (append-nil _); summed = refl }
  insert_all-Complete i n t (ev ∷ events) h =
      go (insert_event d c i t ev) refl
        (λ u. insert_all-Complete (suc i) (add_64 n ev.dropped_before) u events)
    where
      go :
          (r : Result Error d.Tx)
          → insert_event d c i t ev ≡ r
          → ((u : d.Tx)
              → (insert_all d c (suc i) (add_64 n ev.dropped_before) u events).error ≡ none
              → Complete
                  (suc i)
                  (add_64 n ev.dropped_before)
                  u
                  events
                  (insert_all d c (suc i) (add_64 n ev.dropped_before) u events))
          → Complete i n t (ev ∷ events) (insert_all d c i n t (ev ∷ events))
      go (err x) e later = absurd (cc (rw (e, insert_all) at h))
      go (ok u) e later =
          let rest = later u (rw (e, insert_all) at h) in
          rw (e, insert_all)
            (record {
              added =
                  rest.added
                  ∙ ap (λ xs. xs ++ event_rows c (suc i) events) (insert_event-pending i t ev e)
                  ∙ append_assoc (d.pending t) _ _;
              summed = rest.summed;
            })

-- The call has stored everything, or has failed and stored nothing.
abbrev pub AllOrNothing : {d : Database} → Calls → Store d → List Event → Inserted d → Type 0
AllOrNothing c s events r =
    ((r.error ≡ none)
      × (content (stored r.store) ≡ content (stored s) ++ content (event_rows c 0 events))
      × (r.dropped ≡ dropped_sum 0 events))
    ⊎ ((r.error ≢ none) × (stored r.store ≡ stored s))

module _ {d : Database} (c : Calls) (s : Store d) (db : d.State) (is_open : s.db ≡ some db) where
  stored_open : stored s ≡ d.rows db
  stored_open = ap (rows_in s) is_open

  committed :
      (t u : d.Tx) (n : ℕ) (events : List Event)
      → d.pending t ≡ []
      → d.pending u ≡ d.pending t ++ event_rows c 0 events
      → n ≡ dropped_sum 0 events
      → AllOrNothing c s events (finish_insert s db u n none)
  unfolding finish_insert
  committed t u n events fresh added summed = go (d.commit db u).1 refl
    where
      go :
          (e : Option Error)
          → (d.commit db u).1 ≡ e
          → AllOrNothing c s events (finish_insert s db u n none)
      go none e = inl (
        e,
        d.commit_law db u e
            ∙ cc (stored_open, added ∙ ap (λ xs. xs ++ event_rows c 0 events) fresh),
        summed,
      )
      go (some x) e = inr ((λ ok_. cc (e, ok_)), d.commit_error_law db u x e ∙ sym stored_open)

  loop_done :
      (t : d.Tx) (ev : Event) (events : List Event)
      → d.pending t ≡ []
      → AllOrNothing c s
          (ev ∷ events)
          (let p = insert_all d c 0 0 t (ev ∷ events) in finish_insert s db p.tx p.dropped p.error)
  loop_done t ev events fresh =
      go (insert_all d c 0 0 t (ev ∷ events)).error (insert_all-Complete d c 0 0 t (ev ∷ events))
    where
      go :
          (e : Option Error)
          → (e ≡ none → Complete d c 0 0 t (ev ∷ events) (insert_all d c 0 0 t (ev ∷ events)))
          → AllOrNothing c s
              (ev ∷ events)
              (let p = insert_all d c 0 0 t (ev ∷ events) in finish_insert s db p.tx p.dropped e)
      go none done =
          let p = done refl in
          committed t (insert_all d c 0 0 t (ev ∷ events)).tx
            (insert_all d c 0 0 t (ev ∷ events)).dropped (ev ∷ events) fresh p.added p.summed
      go (some x) done =
          unfold finish_insert in inr ((λ e. cc), d.rollback_law db _ ∙ sym stored_open)

  began :
      (r : Result Error d.Tx) (ev : Event) (events : List Event)
      → d.begin db ≡ r
      → AllOrNothing c s (ev ∷ events) (insert_in c s db (ev ∷ events) r)
  began (err e) ev events h = inr ((λ x. cc), refl)
  began (ok t) ev events h = loop_done t ev events (d.begin_law db h)

module _ {d : Database} (c : Calls) (s : Store d) (ev : Event) (events : List Event) where
  opened :
      (o : Option d.State)
      → s.db ≡ o
      → AllOrNothing c s (ev ∷ events) (insert_open c s (ev ∷ events) o)
  opened none h = inr ((λ e. cc), refl)
  opened (some db) h = go s.is_read_only
    where
      go :
          (b : Bool)
          → AllOrNothing c s
              (ev ∷ events)
              (if b then failed s 0 read_only else insert_in c s db (ev ∷ events) (d.begin db))
      go true = inr ((λ e. cc), refl)
      go false = began c s db h (d.begin db) ev events refl

-- InsertEvents stores a row for every event, in order, and reports the sum of their DroppedBefore;
-- or it returns an error, and the table is as it was.
pub insert_events-AllOrNothing :
    {d : Database} (c : Calls) (s : Store d) (events : List Event)
    → AllOrNothing c s events (insert_events c s events)
unfolding insert_events event_rows dropped_sum
insert_events-AllOrNothing c s [] = inl (refl, sym (append-nil _), refl)
insert_events-AllOrNothing c s (ev ∷ events) = opened c s ev events s.db refl
