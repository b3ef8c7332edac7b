-- ===== src/Daemon/Records.antt =====
-- The collector, the flush stage and InsertEvents together: what the daemon leaves in the table.
-- The clock, and whether a write has run out of time, are the same functions of an event's place in its
-- batch for every batch.
use mathlib.Core.Path.{subst}
use ltm.Prelude.{
  ℕ, suc, ◌≡◌, ◌≢◌, refl, sym, ap, ◌∙◌, true, List, [], ◌∷◌, ◌++◌, Text, Option, none, some,
  append_assoc, append-nil, inl, inr, length,
}
use ltm.Go.Time.{Time}
use ltm.Collector.Filter.{new_ignore_rules}
use ltm.Collector.Run.{Arrival, collect, collect-Accounts, with_room}
use ltm.Daemon.Conserves.{Ended, blank, events_of}
use ltm.Daemon.Ends.{flush_loop-Ended}
use ltm.Daemon.Keeps.{run-Holds}
use ltm.Daemon.Flush.{Batcher, Settings, Signal, Sink, flush_loop, start}
use ltm.Storage.Event.{Error, Event}
use ltm.Storage.Select.Meaning.{Row}
use ltm.Storage.Write.Atomic.{
  AllOrNothing, event_rows, insert_events-AllOrNothing, metadata_or_nil, stored,
}
use ltm.Storage.Write.{Calls, Database, Store, content, event_row, insert_events}

-- InsertEvents as the sink of the flush stage, with the events it has taken.
abbrev pub kept : Option Error → List Event → List Event → List Event
kept none taken batch = taken ++ batch
kept (some e) taken batch = taken

module _ (d : Database) (c : Calls) where
  abbrev pub insert_batch :
      Store d × List Event → List Event → (Store d × List Event) × Option Error
  insert_batch (s, taken) batch =
      let r = insert_events c s batch in ((r.store, kept r.error taken batch), r.error)

  pub kept-none :
      (e : Option Error) (taken batch : List Event) → e ≡ none → kept e taken batch ≡ taken ++ batch
  kept-none e taken batch h = ap (λ x. kept x taken batch) h

  pub kept-some :
      (e : Option Error) (x : Error) (taken batch : List Event)
      → e ≡ some x
      → kept e taken batch ≡ taken
  kept-some e x taken batch h = ap (λ y. kept y taken batch) h

  abbrev pub table_sink : Sink
  table_sink = record {
    State = Store d × List Event;
    stored = λ s. s.1;
    insert = insert_batch;
    insert_law = λ s batch. kept-none (insert_events c s.0 batch).error s.1 batch;
    insert_error_law = λ s batch e. kept-some (insert_events c s.0 batch).error e s.1 batch;
  }

-- The rows of events, one each and in order, but for DroppedBefore and the row's id; `ts` is the time of
-- the insert where an event has none.
abbrev pub Recorded : Calls → List Row → List Event → Type 0
Recorded c [] [] = Unit
Recorded c (r ∷ rows) (ev ∷ events) =
    ((now : Time) × (record r { dropped_before = 0 }
        ≡ event_row now (metadata_or_nil (c.marshal ev.metadata))
            (record ev { dropped_before = 0 })))
    × Recorded c rows events
Recorded c _ _ = ⊥

module _ (c : Calls) where
  Recorded-append :
      (xs ys : List Row) (es fs : List Event)
      → Recorded c xs es
      → Recorded c ys fs
      → Recorded c (xs ++ ys) (es ++ fs)
  Recorded-append [] ys [] fs h k = k
  Recorded-append [] ys (e ∷ es) fs h k = absurd h
  Recorded-append (x ∷ xs) ys [] fs h k = absurd h
  Recorded-append (x ∷ xs) ys (e ∷ es) fs h k = (h.0, Recorded-append xs ys es fs h.1 k)

  Recorded-event_rows :
      (i : ℕ) (events : List Event) → Recorded c (content (event_rows c i events)) events
  unfolding event_rows event_row
  Recorded-event_rows i [] = tt
  Recorded-event_rows i (ev ∷ events) = ((c.now i, refl), Recorded-event_rows (suc i) events)

  Recorded-blank :
      (rows : List Row) (events : List Event)
      → Recorded c rows events
      → Recorded c rows (blank events)
  Recorded-blank [] [] h = tt
  Recorded-blank [] (e ∷ es) h = absurd h
  Recorded-blank (r ∷ rows) [] h = absurd h
  Recorded-blank (r ∷ rows) (e ∷ es) h = (h.0, Recorded-blank rows es h.1)

-- What the table has gained is the events that the sink has taken.
record Gained {d : Database} (c : Calls) (before : Store d) (s : Store d × List Event)
    : Type 0 where
  new : List Row
  grown : content (stored s.0) ≡ content (stored before) ++ new
  recorded : Recorded c new s.1

insert_batch-Gained :
    {d : Database} (c : Calls) (before : Store d) (s : Store d × List Event) (batch : List Event)
    → Gained c before s
    → Gained c before (insert_batch d c s batch).0
insert_batch-Gained {d} c before (s, taken) batch g = outcome (insert_events-AllOrNothing c s batch)
  where
    outcome :
        AllOrNothing c s batch (insert_events c s batch)
        → Gained c before (insert_batch d c (s, taken) batch).0
    outcome (inl (done, grown, summed)) = record {
      new = g.new ++ content (event_rows c 0 batch);
      grown =
          grown
          ∙ ap (λ xs. xs ++ content (event_rows c 0 batch)) g.grown
          ∙ append_assoc (content (stored before)) g.new (content (event_rows c 0 batch));
      recorded =
          subst (Recorded c (g.new ++ content (event_rows c 0 batch)))
            (sym (kept-none d c (insert_events c s batch).error taken batch done))
            (Recorded-append c g.new (content (event_rows c 0 batch)) taken batch g.recorded
              (Recorded-event_rows c 0 batch));
    }
    outcome (inr (failed, same)) = refused (insert_events c s batch).error refl failed same
      where
        refused :
            (e : Option Error)
            → (insert_events c s batch).error ≡ e
            → (insert_events c s batch).error ≢ none
            → stored (insert_events c s batch).store ≡ stored s
            → Gained c before (insert_batch d c (s, taken) batch).0
        refused none h f st = absurd (f h)
        refused (some x) h f st = record {
          new = g.new;
          grown = ap content st ∙ g.grown;
          recorded =
              subst (Recorded c g.new)
                (sym (kept-some d c (insert_events c s batch).error x taken batch h)) g.recorded;
        }

-- The table has gained the rows of these events, and else is as it was.
abbrev pub HasLogged : {d : Database} → Calls → Store d → Store d → List Event → Type 0
HasLogged c before after events =
    (new : List Row) × (content (stored after) ≡ content (stored before) ++ new)
    × Recorded c new events

module _ {d : Database} (c : Calls) (before : Store d) where
  -- What has been recorded when the flush stage returns: with no error all events, with an error a
  -- first part of them.
  abbrev pub Logged : List Event → Batcher (table_sink d c) × Option Error → Type 0
  Logged events (b, none) = HasLogged c before b.store.0 events
  Logged events (b, some e) =
      (first : List Event) × (rest : List Event) × (first ++ rest ≡ events)
      × HasLogged c before b.store.0 first

  Ended-Logged :
      (events : List Event) (r : Batcher (table_sink d c) × Option Error)
      → Gained c before r.0.store
      → Ended events r
      → Logged events r
  Ended-Logged events (b, none) g ended = (
    g.new,
    g.grown,
    subst (Recorded c g.new) ended.0 (Recorded-blank c g.new b.store.1 g.recorded),
  )
  Ended-Logged events (b, some e) g ended = (
    blank b.store.1,
    blank b.batch ++ blank ended.0,
    sym (append_assoc (blank b.store.1) (blank b.batch) (blank ended.0)) ∙ ended.1,
    (g.new, g.grown, Recorded-blank c g.new b.store.1 g.recorded),
  )

  -- From the collector to the table. If what the flush stage receives is what the collector has sent,
  -- then the flush stage returns, and the table has gained a row for every event that no rule ignores and
  -- that fitted into the channel, one each, in their order and with their fields, and nothing else; or,
  -- where the flush stage returns an error, a row for each of a first part of those events. DroppedBefore
  -- and the rows' ids are left out of the comparison.
  pub flush_loop-Logged :
      (settings : Settings) (ignore_paths : List Text) (source : Option Error)
      (arrivals : List Arrival) (s : List Signal)
      → events_of s ≡ (collect ignore_paths source arrivals).0.sent
      → (r : Batcher (table_sink d c) × Option Error) × (flush_loop settings (before, []) s
          ≡ some r)
        × Logged (blank (with_room (new_ignore_rules ignore_paths) true arrivals)) r
  flush_loop-Logged settings ignore_paths source arrivals s received =
      let ended = flush_loop-Ended {k = table_sink d c} settings (before, []) s in
      (
        ended.0,
        ended.1,
        Ended-Logged (blank (with_room (new_ignore_rules ignore_paths) true arrivals)) ended.0
            (unfold flush_loop start in
              run-Holds settings (Gained c before) (insert_batch-Gained c before) (suc (length s))
                (start (before, [])) s
                (record { new = []; grown = sym (append-nil _); recorded = tt }) ended.1)
            (subst (λ xs. Ended xs ended.0)
              (ap blank (received ∙ (collect-Accounts ignore_paths source arrivals).0)) ended.2),
      )
