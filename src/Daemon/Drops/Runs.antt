-- ===== src/Daemon/Drops/Runs.antt =====
-- The loop of internal/daemon/flush.go keeps the balance of the drops, round by round.
use mathlib.Core.Option.{some-injective}
use mathlib.Core.Path.{subst}
use ltm.Prelude.{
  ℕ, zero, suc, ◌+◌, ◌%◌, ◌≡◌, refl, ap, Bool, true, false, List, [], ◌∷◌, Option, none, some, leb,
  ltb, length, arith, if◌then◌else◌, Bool-cases, inl, inr,
}
use ltm.Go.Time.{two_64}
use ltm.Daemon.Conserves.{events_of}
use ltm.Daemon.Drops.{IsBalanced, IsFlushed, drops, drops-append, flush-IsFlushed, greatest_count}
use ltm.Daemon.Flush.{
  Batcher, Next, Settings, Signal, Sink, after_drain, append, drain_ready, event, finish, flush,
  flush_loop, go, go_unless, pause, proceed, run, start, step, stop, tick,
}
use ltm.Storage.Event.{Error, Event}

module _ {k : Sink} (c : Settings) where
  append-IsBalanced :
      (all : ℕ) (b : Batcher k) (ev : Event) (s : List Signal)
      → IsBalanced c all b (event ev ∷ s)
      → IsBalanced c all (append b ev) s
  unfolding append
  append-IsBalanced all b ev s i = record {
    sum = omega (arith, i.sum, drops-append b.batch (ev ∷ []));
    counted = i.counted;
  }

  -- The drain keeps the balance, and reports a close only behind the last event.
  record IsDrained (all : ℕ) (r : Batcher k × List Signal × Bool) : Type 0 where
    balanced : IsBalanced c all r.0 r.1
    closed : r.2 ≡ false → r.1 ≡ []

  drain_ready-IsDrained :
      (all : ℕ) (b : Batcher k) (s : List Signal)
      → IsBalanced c all b s
      → IsDrained all (drain_ready c b s)
  unfolding drain_ready
  drain_ready-IsDrained all b [] i = record { balanced = i; closed = λ x. refl }
  drain_ready-IsDrained all b (event ev ∷ s) i =
      elim (Bool-cases (ltb (length b.batch) c.max_batch)) [
        | inl e ↦ rw e (drain_ready-IsDrained all (append b ev) s (append-IsBalanced all b ev s i))
        | inr e ↦ rw e (record { balanced = i; closed = λ x. absurd (cc) })
      ]
  drain_ready-IsDrained all b (pause ∷ s) i = elim (Bool-cases (ltb (length b.batch) c.max_batch)) [
    | inl e ↦ rw e (record {
      balanced = record { sum = i.sum; counted = i.counted };
      closed = λ x. absurd (cc);
    })
    | inr e ↦ rw e (record { balanced = i; closed = λ x. absurd (cc) })
  ]
  drain_ready-IsDrained all b (tick cancelled ∷ s) i = record {
    balanced = i;
    closed = λ x. absurd (cc);
  }

  -- Behind an end with no error nothing is left to store.
  abbrev IsSettled : ℕ → Next k → Type 0
  IsSettled all (go b s) = IsBalanced c all b s
  IsSettled all (stop b none) = IsBalanced c all b [] × (b.batch ≡ [])
  IsSettled all (stop b (some e)) = Unit

  go_unless-IsSettled :
      (all : ℕ) (s : List Signal) (r : Batcher k × Option Error)
      → IsFlushed c all s r
      → IsSettled all (go_unless s r)
  go_unless-IsSettled all s (b, none) f = f.balanced
  go_unless-IsSettled all s (b, some e) f = tt

  finish-IsSettled :
      (all : ℕ) (r : Batcher k × Option Error) → IsFlushed c all [] r → IsSettled all (finish r)
  finish-IsSettled all (b, none) f = (f.balanced, f.empty refl)
  finish-IsSettled all (b, some e) f = tt

  after_drain-IsSettled :
      (all : ℕ) (r : Batcher k × List Signal × Bool)
      → IsDrained all r
      → IsSettled all (after_drain c r)
  after_drain-IsSettled all (b, s, true) d =
      go_unless-IsSettled all s (flush c b) (flush-IsFlushed c all b s d.balanced)
  after_drain-IsSettled all (b, s, false) d =
      finish-IsSettled all (flush c b)
        (flush-IsFlushed c all b [] (subst (IsBalanced c all b) (d.closed refl) d.balanced))

  step-IsSettled :
      (all : ℕ) (b : Batcher k) (s : List Signal)
      → IsBalanced c all b s
      → IsSettled all (step c b s)
  unfolding step
  step-IsSettled all b [] i = finish-IsSettled all (flush c b) (flush-IsFlushed c all b [] i)
  step-IsSettled all b (pause ∷ s) i = record { sum = i.sum; counted = i.counted }
  step-IsSettled all b (tick true ∷ s) i = record { sum = i.sum; counted = i.counted }
  step-IsSettled all b (tick false ∷ s) i =
      go_unless-IsSettled all s (flush c b)
        (flush-IsFlushed c all b s (record { sum = i.sum; counted = i.counted }))
  step-IsSettled all b (event ev ∷ s) i =
      branch (leb c.batch_size (length (append b ev).batch)) (append-IsBalanced all b ev s i)
    where
      branch :
          (full : Bool)
          → IsBalanced c all (append b ev) s
          → IsSettled all
              (if full then after_drain c (drain_ready c (append b ev) s) else go (append b ev) s)
      branch true j =
          after_drain-IsSettled all (drain_ready c (append b ev) s)
            (drain_ready-IsDrained all (append b ev) s j)
      branch false j = j

  run-IsSettled :
      (all fuel : ℕ) (b : Batcher k) (s : List Signal) {b' : Batcher k}
      → IsBalanced c all b s
      → run c fuel b s ≡ some (b', none)
      → IsBalanced c all b' [] × (b'.batch ≡ [])
  unfolding run
  run-IsSettled all zero b s i h = absurd (cc)
  run-IsSettled all (suc fuel) b s {b'} i h =
      outcome (step c b s) (step-IsSettled all b s i) h (λ x s'. run-IsSettled all fuel x s')
    where
      outcome :
          (n : Next k)
          → IsSettled all n
          → proceed (run c fuel) n ≡ some (b', none)
          → ((x : Batcher k) (s' : List Signal)
              → IsBalanced c all x s'
              → run c fuel x s' ≡ some (b', none)
              → IsBalanced c all b' [] × (b'.batch ≡ []))
          → IsBalanced c all b' [] × (b'.batch ≡ [])
      outcome (go x s') j e again = again x s' j e
      outcome (stop x y) j e again =
          subst (λ r. IsSettled all (stop r.0 r.1)) (some-injective _ _ e) j

  -- Where flushLoop ends with no error, the store has, modulo 2^64, the drops it had, those the events
  -- came with, and the greatest count that droppedFn has returned, as an int64, if one is positive: no
  -- reported drop is lost or counted twice.
  pub flush_loop-drops :
      (store : k.State) (s : List Signal) {b : Batcher k}
      → flush_loop c store s ≡ some (b, none)
      → drops (k.stored b.store) % two_64
        ≡ (drops (k.stored store) + drops (events_of s) + greatest_count c.dropped_fn b.calls)
          % two_64
  unfolding flush_loop start
  flush_loop-drops store s {b} h =
      let all = drops (k.stored store) + drops (events_of s) in
      let (i, e) =
        run-IsSettled all (suc (length s)) (start store) s
          (record { sum = omega arith; counted = refl }) h in
      omega (arith, i.sum, i.counted, ap drops e)
