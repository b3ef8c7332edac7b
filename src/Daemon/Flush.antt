-- ===== src/Daemon/Flush.antt =====
-- internal/daemon/flush.go: the eventBatcher. What the goroutine finds at its channels is a list of
-- signals, and its end is the close of `ingest`. The store is the interface `Sink`, which InsertEvents
-- fills: a batch is stored whole, or there is an error and nothing of it is stored. `droppedFn` is a
-- function of how often it has been called.
use ltm.Prelude.{
  ℕ, zero, suc, ◌+◌, ◌≡◌, Bool, true, false, List, [], ◌∷◌, ◌++◌, Option, none, some, leb, ltb,
  length, if◌then◌else◌,
}
use ltm.Go.Time.{add_64, sub_64, ltb_64}
use ltm.Storage.Event.{Event, Error}

pub record Sink : Type 1 where
  pub State : Type 0
  pub stored : State → List Event
  pub insert : State → List Event → State × Option Error
  pub insert_law :
      (s : State) (batch : List Event)
      → (insert s batch).1 ≡ none
      → stored (insert s batch).0 ≡ stored s ++ batch
  pub insert_error_law :
      (s : State) (batch : List Event) (e : Error)
      → (insert s batch).1 ≡ some e
      → stored (insert s batch).0 ≡ stored s

-- The constants of a batcher, and droppedFn.
pub record Settings : Type 0 where
  pub batch_size : ℕ
  pub max_batch : ℕ
  pub dropped_fn : ℕ → ℕ

pub record Batcher (k : Sink) : Type 0 where
  pub batch : List Event
  pub last_dropped : ℕ
  pub calls : ℕ
  pub store : k.State

-- An event at `ingest`; nothing at `ingest` for now; the ticker, with `ctx.Err() != nil`.
pub data Signal : Type 0 where
  event : Event → Signal
  pause : Signal
  tick : Bool → Signal

abbrev pub add_dropped : ℕ → Event → Event
add_dropped n ev = record ev { dropped_before = add_64 ev.dropped_before n }

-- `b.batch[0].DroppedBefore += n`.
abbrev pub add_to_first : ℕ → List Event → List Event
add_to_first n [] = []
add_to_first n (ev ∷ events) = add_dropped n ev ∷ events

module _ {k : Sink} where
  unfoldable pub start : k.State → Batcher k
  start store = record { batch = []; last_dropped = 0; calls = 0; store = store }

  unfoldable pub append : Batcher k → Event → Batcher k
  append b ev = record b { batch = b.batch ++ ev ∷ [] }

  -- The drops since the last flush go to the batch's first event.
  unfoldable pub mark_dropped : Batcher k → ℕ → Batcher k
  mark_dropped b cur =
      if ltb_64 b.last_dropped cur
      then record b {
        batch = add_to_first (sub_64 cur b.last_dropped) b.batch;
        last_dropped = cur;
        calls = b.calls + 1;
      }
      else record b { calls = b.calls + 1 }

  abbrev pub emptied : Batcher k → k.State × Option Error → Batcher k × Option Error
  emptied b (s, none) = (record b { batch = []; store = s }, none)
  emptied b (s, some e) = (record b { store = s }, some e)

  unfoldable pub write_batch : Batcher k → Batcher k × Option Error
  write_batch b = emptied b (k.insert b.store b.batch)

module _ {k : Sink} (c : Settings) where
  abbrev pub flush_batch : Batcher k → List Event → Batcher k × Option Error
  flush_batch b [] = (b, none)
  flush_batch b (ev ∷ events) = write_batch (mark_dropped b (c.dropped_fn b.calls))

  -- flush, flushWrite and finish: the write context is never cancelled by the run.
  unfoldable pub flush : Batcher k → Batcher k × Option Error
  flush b = flush_batch b b.batch

  -- drainReady: the batcher, the signals that are left, and whether `ingest` is still open.
  unfoldable pub drain_ready : Batcher k → List Signal → Batcher k × List Signal × Bool
  drain_ready b [] = (b, [], leb c.max_batch (length b.batch))
  drain_ready b (event ev ∷ s) =
      if ltb (length b.batch) c.max_batch
      then drain_ready (append b ev) s
      else (b, event ev ∷ s, true)
  drain_ready b (pause ∷ s) =
      if ltb (length b.batch) c.max_batch then (b, s, true) else (b, pause ∷ s, true)
  drain_ready b (tick cancelled ∷ s) = (b, tick cancelled ∷ s, true)

-- One round of the loop goes on with the signals that are left, or returns.
pub data Next (k : Sink) : Type 0 where
  go : Batcher k → List Signal → Next k
  stop : Batcher k → Option Error → Next k

module _ {k : Sink} where
  abbrev pub go_unless : List Signal → Batcher k × Option Error → Next k
  go_unless s (b, none) = go b s
  go_unless s (b, some e) = stop b (some e)

  abbrev pub finish : Batcher k × Option Error → Next k
  finish (b, e) = stop b e

  abbrev pub proceed :
      (Batcher k → List Signal → Option (Batcher k × Option Error))
      → Next k
      → Option (Batcher k × Option Error)
  proceed again (go b s) = again b s
  proceed again (stop b e) = some (b, e)

module _ {k : Sink} (c : Settings) where
  abbrev pub after_drain : Batcher k × List Signal × Bool → Next k
  after_drain (b, s, true) = go_unless s (flush c b)
  after_drain (b, s, false) = finish (flush c b)

  -- The select of the loop.
  unfoldable pub step : Batcher k → List Signal → Next k
  step b [] = finish (flush c b)
  step b (pause ∷ s) = go b s
  step b (tick true ∷ s) = go b s
  step b (tick false ∷ s) = go_unless s (flush c b)
  step b (event ev ∷ s) =
      if leb c.batch_size (length (append b ev).batch)
      then after_drain (drain_ready c (append b ev) s)
      else go (append b ev) s

  -- The loop on fuel; `none` is fuel that has run out.
  unfoldable pub run : ℕ → Batcher k → List Signal → Option (Batcher k × Option Error)
  run zero b s = none
  run (suc fuel) b s = proceed (run fuel) (step b s)

  -- flushLoop, from an empty batch.
  unfoldable pub flush_loop : k.State → List Signal → Option (Batcher k × Option Error)
  flush_loop store s = run (suc (length s)) (start store) s
