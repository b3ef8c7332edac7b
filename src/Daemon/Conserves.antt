-- ===== src/Daemon/Conserves.antt =====
-- No event is lost, doubled or reordered between `ingest` and the store. Batches change the field
-- DroppedBefore alone, so events are compared without it.
use mathlib.Core.List.{map-append}
use mathlib.Core.Option.{some-injective}
use mathlib.Core.Path.{subst}
use ltm.Prelude.{
  ℕ, zero, suc, ◌≡◌, refl, sym, ap, ◌∙◌, Bool, true, false, List, [], ◌∷◌, ◌++◌, map, Option, none,
  some, leb, ltb, length, append_assoc, append-nil, if◌then◌else◌, Bool-cases, inl, inr,
}
use ltm.Go.Time.{ltb_64, sub_64}
use ltm.Storage.Event.{Event, Error}
use ltm.Daemon.Flush.{
  Sink, Settings, Batcher, Signal, event, pause, tick, add_to_first, append, mark_dropped,
  write_batch, flush_batch, flush, drain_ready, Next, go, stop, go_unless, finish, after_drain,
  step, proceed, run, emptied,
}

abbrev pub blank : List Event → List Event
blank = map (λ (ev : Event). record ev { dropped_before = 0 })

abbrev pub events_of : List Signal → List Event
events_of [] = []
events_of (event ev ∷ s) = ev ∷ events_of s
events_of (pause ∷ s) = events_of s
events_of (tick cancelled ∷ s) = events_of s

blank-append : (xs ys : List Event) → blank (xs ++ ys) ≡ blank xs ++ blank ys
blank-append xs ys = map-append _ xs ys

blank-add_to_first : (n : ℕ) (events : List Event) → blank (add_to_first n events) ≡ blank events
blank-add_to_first n [] = refl
blank-add_to_first n (ev ∷ events) = refl

module _ {k : Sink} where
  -- What the batcher has, stored first.
  abbrev held : Batcher k → List Event
  held b = blank (k.stored b.store) ++ blank b.batch

  -- What there is in all.
  abbrev pub seen : Batcher k → List Signal → List Event
  seen b s = (blank (k.stored b.store) ++ blank b.batch) ++ blank (events_of s)

  held-append : (b : Batcher k) (ev : Event) → held (append b ev) ≡ held b ++ blank (ev ∷ [])
  unfolding append
  held-append b ev =
      ap (λ xs. blank (k.stored b.store) ++ xs) (blank-append b.batch (ev ∷ []))
      ∙ sym (append_assoc (blank (k.stored b.store)) (blank b.batch) (blank (ev ∷ [])))

  held-mark_dropped : (b : Batcher k) (n : ℕ) → held (mark_dropped b n) ≡ held b
  unfolding mark_dropped
  held-mark_dropped b n = elim (Bool-cases (ltb_64 b.last_dropped n)) [
    | inl e ↦ rw e (
        ap (λ xs. blank (k.stored b.store) ++ xs)
          (blank-add_to_first (sub_64 n b.last_dropped) b.batch))
    | inr e ↦ rw e
  ]

  -- A write keeps what is held, and a write with no error empties the batch.
  record Flushed (b : Batcher k) (r : Batcher k × Option Error) : Type 0 where
    same : held r.0 ≡ held b
    empty : r.1 ≡ none → r.0.batch ≡ []

  write_batch-Flushed : (b : Batcher k) → Flushed b (write_batch b)
  unfolding write_batch
  write_batch-Flushed b = outcome (k.insert b.store b.batch).1 refl
    where
      outcome :
          (e : Option Error)
          → (k.insert b.store b.batch).1 ≡ e
          → Flushed b (emptied b ((k.insert b.store b.batch).0, e))
      outcome none h = record {
        same =
            append-nil _
            ∙ ap blank (k.insert_law b.store b.batch h)
            ∙ blank-append (k.stored b.store) b.batch;
        empty = λ _. refl;
      }
      outcome (some e) h = record {
        same = ap (λ xs. blank xs ++ blank b.batch) (k.insert_error_law b.store b.batch e h);
        empty = λ x. absurd (cc);
      }

  flush-Flushed : (c : Settings) (b : Batcher k) → Flushed b (flush c b)
  unfolding flush
  flush-Flushed c b = outcome b.batch refl
    where
      outcome : (events : List Event) → b.batch ≡ events → Flushed b (flush_batch c b events)
      outcome [] h = record { same = refl; empty = λ _. h }
      outcome (ev ∷ events) h =
          let marked = mark_dropped b (c.dropped_fn b.calls) in
          let written = write_batch-Flushed marked in
          record {
            same = written.same ∙ held-mark_dropped b (c.dropped_fn b.calls);
            empty = written.empty;
          }

  seen-append :
      (b : Batcher k) (ev : Event) (s : List Signal) → seen (append b ev) s ≡ seen b (event ev ∷ s)
  seen-append b ev s =
      ap (λ xs. xs ++ blank (events_of s)) (held-append b ev)
      ∙ append_assoc (held b) (blank (ev ∷ [])) (blank (events_of s))

  -- The drain keeps what there is, and reports a close only behind the last event.
  record Drained (b : Batcher k) (s : List Signal) (r : Batcher k × List Signal × Bool)
      : Type 0 where
    same : seen r.0 r.1 ≡ seen b s
    closed : r.2 ≡ false → r.1 ≡ []

  drain_ready-Drained :
      (c : Settings) (b : Batcher k) (s : List Signal) → Drained b s (drain_ready c b s)
  unfolding drain_ready
  drain_ready-Drained c b [] = record { same = refl; closed = λ _. refl }
  drain_ready-Drained c b (event ev ∷ s) = elim (Bool-cases (ltb (length b.batch) c.max_batch)) [
    | inl e ↦
        let rest = drain_ready-Drained c (append b ev) s in
        rw e (record { same = rest.same ∙ seen-append b ev s; closed = rest.closed })
    | inr e ↦ rw e (record { same = refl; closed = λ x. absurd (cc) })
  ]
  drain_ready-Drained c b (pause ∷ s) = elim (Bool-cases (ltb (length b.batch) c.max_batch)) [
    | inl e ↦ rw e (record { same = refl; closed = λ x. absurd (cc) })
    | inr e ↦ rw e (record { same = refl; closed = λ x. absurd (cc) })
  ]
  drain_ready-Drained c b (tick cancelled ∷ s) = record { same = refl; closed = λ x. absurd (cc) }

  -- Where the loop ends well, all is stored; where it ends with an error, a first part of all is
  -- stored or in the batch.
  abbrev pub Ended : List Event → Batcher k × Option Error → Type 0
  Ended all (b, none) = (blank (k.stored b.store) ≡ all) × (b.batch ≡ [])
  Ended all (b, some e) =
      (rest : List Event) × ((blank (k.stored b.store) ++ blank b.batch) ++ blank rest ≡ all)

  abbrev Kept : List Event → Next k → Type 0
  Kept all (go b s) = seen b s ≡ all
  Kept all (stop b e) = Ended all (b, e)

  go_unless-Kept :
      (b : Batcher k) (s : List Signal) (r : Batcher k × Option Error)
      → Flushed b r
      → Kept (seen b s) (go_unless s r)
  go_unless-Kept b s (b', none) f = ap (λ xs. xs ++ blank (events_of s)) f.same
  go_unless-Kept b s (b', some e) f = (events_of s, ap (λ xs. xs ++ blank (events_of s)) f.same)

  finish-Kept :
      (b : Batcher k) (r : Batcher k × Option Error) → Flushed b r → Kept (seen b []) (finish r)
  finish-Kept b (b', none) f =
      let e = f.empty refl in
      (
        sym (append-nil _)
            ∙ ap (λ xs. blank (k.stored b'.store) ++ blank xs) (sym e)
            ∙ f.same
            ∙ sym (append-nil _),
        e,
      )
  finish-Kept b (b', some e) f = ([], append-nil _ ∙ f.same ∙ sym (append-nil _))

  after_drain-Kept :
      (c : Settings) (b : Batcher k) (s : List Signal) (r : Batcher k × List Signal × Bool)
      → Drained b s r
      → Kept (seen b s) (after_drain c r)
  after_drain-Kept c b s (b', s', true) h =
      subst (λ all. Kept all (go_unless s' (flush c b'))) h.same
        (go_unless-Kept b' s' (flush c b') (flush-Flushed c b'))
  after_drain-Kept c b s (b', s', false) h =
      subst (λ all. Kept all (finish (flush c b')))
        (ap (λ xs. seen b' xs) (sym (h.closed refl)) ∙ h.same)
        (finish-Kept b' (flush c b') (flush-Flushed c b'))

  step-Kept : (c : Settings) (b : Batcher k) (s : List Signal) → Kept (seen b s) (step c b s)
  unfolding step
  step-Kept c b [] = finish-Kept b (flush c b) (flush-Flushed c b)
  step-Kept c b (pause ∷ s) = refl
  step-Kept c b (tick true ∷ s) = refl
  step-Kept c b (tick false ∷ s) = go_unless-Kept b s (flush c b) (flush-Flushed c b)
  step-Kept c b (event ev ∷ s) =
      subst (λ all. Kept all (step c b (event ev ∷ s))) (seen-append b ev s)
        (branch (leb c.batch_size (length (append b ev).batch)))
    where
      branch :
          (full : Bool)
          → Kept
              (seen (append b ev) s)
              (if full then after_drain c (drain_ready c (append b ev) s) else go (append b ev) s)
      branch true =
          after_drain-Kept c (append b ev) s (drain_ready c (append b ev) s)
            (drain_ready-Drained c (append b ev) s)
      branch false = refl

  pub run-Ended :
      (c : Settings) (fuel : ℕ) (b : Batcher k) (s : List Signal) {r : Batcher k × Option Error}
      → run c fuel b s ≡ some r
      → Ended (seen b s) r
  unfolding run
  run-Ended c zero b s h = absurd (cc)
  run-Ended c (suc fuel) b s {r} h =
      outcome (step c b s) (step-Kept c b s) h (λ b' s'. run-Ended c fuel b' s')
    where
      outcome :
          (n : Next k)
          → Kept (seen b s) n
          → proceed (run c fuel) n ≡ some r
          → ((b' : Batcher k) (s' : List Signal) → run c fuel b' s' ≡ some r → Ended (seen b' s') r)
          → Ended (seen b s) r
      outcome (go b' s') kept e again = subst (λ all. Ended all r) kept (again b' s' e)
      outcome (stop b' x) kept e again = subst (Ended (seen b s)) (some-injective _ _ e) kept
