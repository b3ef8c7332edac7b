-- ===== src/Daemon/Ends.antt =====
-- The loop ends, and what it has stored by then.
use mathlib.Core.Path.{subst}
use ltm.Prelude.{
  ℕ, zero, suc, ◌≤◌, ◌<◌, ◌≡◌, refl, Bool, true, false, List, [], ◌∷◌, ◌++◌, Option, none, some,
  leb, length, arith, if◌then◌else◌, append-nil,
}
use ltm.Storage.Event.{Error}
use ltm.Daemon.Conserves.{blank, events_of, Ended, run-Ended}
use ltm.Daemon.Flush.{
  Sink, Settings, Batcher, Signal, event, pause, tick, append, flush, drain_ready, Next, go, stop,
  go_unless, after_drain, step, proceed, run, start, flush_loop,
}

module _ {k : Sink} where
  length-drain_ready :
      (c : Settings) (b : Batcher k) (s : List Signal) → length (drain_ready c b s).1 ≤ length s
  unfolding drain_ready
  length-drain_ready c b [] = omega arith
  length-drain_ready c b (event ev ∷ s) = ground (arith, length-drain_ready c (append b ev) s)
  length-drain_ready c b (pause ∷ s) = ground arith
  length-drain_ready c b (tick cancelled ∷ s) = omega arith

  -- A round that goes on leaves fewer than `n` signals.
  abbrev Shrinks : ℕ → Next k → Type 0
  Shrinks n (go b s) = length s < n
  Shrinks n (stop b e) = Unit

  go_unless-Shrinks :
      (n : ℕ) (s : List Signal) (r : Batcher k × Option Error)
      → length s < n
      → Shrinks n (go_unless s r)
  go_unless-Shrinks n s (b, none) h = h
  go_unless-Shrinks n s (b, some e) h = tt

  after_drain-Shrinks :
      (c : Settings) (n : ℕ) (r : Batcher k × List Signal × Bool)
      → length r.1 < n
      → Shrinks n (after_drain c r)
  after_drain-Shrinks c n (b, s, true) h = go_unless-Shrinks n s (flush c b) h
  after_drain-Shrinks c n (b, s, false) h = tt

  step-Shrinks :
      (c : Settings) (b : Batcher k) (x : Signal) (s : List Signal)
      → Shrinks (length (x ∷ s)) (step c b (x ∷ s))
  unfolding step
  step-Shrinks c b pause s = omega arith
  step-Shrinks c b (tick true) s = omega arith
  step-Shrinks c b (tick false) s = go_unless-Shrinks _ s (flush c b) (omega arith)
  step-Shrinks c b (event ev) s = branch (leb c.batch_size (length (append b ev).batch))
    where
      branch :
          (full : Bool)
          → Shrinks
              (length (event ev ∷ s))
              (if full then after_drain c (drain_ready c (append b ev) s) else go (append b ev) s)
      branch true =
          after_drain-Shrinks c _ (drain_ready c (append b ev) s)
            (omega (arith, length-drain_ready c (append b ev) s))
      branch false = omega arith

  -- Enough fuel: one round for each signal, and one for the close.
  run_returns :
      (c : Settings) (fuel : ℕ) (b : Batcher k) (s : List Signal)
      → length s < fuel
      → (r : Batcher k × Option Error) × (run c fuel b s ≡ some r)
  unfolding run
  run_returns c zero b s h = absurd (omega arith)
  run_returns c (suc fuel) b [] h = unfold step in (flush c b, refl)
  run_returns c (suc fuel) b (x ∷ s) h =
      outcome (step c b (x ∷ s)) (step-Shrinks c b x s) (λ b' s'. run_returns c fuel b' s')
    where
      outcome :
          (n : Next k)
          → Shrinks (length (x ∷ s)) n
          → ((b' : Batcher k) (s' : List Signal)
              → length s' < fuel
              → (r : Batcher k × Option Error) × (run c fuel b' s' ≡ some r))
          → (r : Batcher k × Option Error) × (proceed (run c fuel) n ≡ some r)
      outcome (go b' s') shrinks again = again b' s' (omega arith)
      outcome (stop b' e) shrinks again = ((b', e), refl)

  -- Whatever arrives until `ingest` is closed, the flush stage returns. With no error, the store has
  -- gained all events that arrived, each once and in their order, and no batch is left; with an error,
  -- what it has gained and the batch that is left are a first part of them. DroppedBefore is left out
  -- of the comparison.
  pub flush_loop-Ended :
      (c : Settings) (store : k.State) (s : List Signal)
      → (r : Batcher k × Option Error) × (flush_loop c store s ≡ some r)
        × Ended (blank (k.stored store) ++ blank (events_of s)) r
  unfolding flush_loop start
  flush_loop-Ended c store s =
      let ends = run_returns c (suc (length s)) (start store) s (omega arith) in
      (
        ends.0,
        ends.1,
        subst (λ xs. Ended (xs ++ blank (events_of s)) ends.0) (append-nil (blank (k.stored store)))
            (run-Ended c (suc (length s)) (start store) s ends.1),
      )
