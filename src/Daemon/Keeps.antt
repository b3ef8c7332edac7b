-- ===== src/Daemon/Keeps.antt =====
-- A property of the sink that every insert keeps: the loop of internal/daemon/flush.go keeps it.
use mathlib.Core.Option.{some-injective}
use mathlib.Core.Path.{subst}
use ltm.Prelude.{
  ℕ, zero, suc, ◌≡◌, refl, sym, Bool, true, false, List, [], ◌∷◌, Option, none, some, inl, inr, leb,
  ltb, length, if◌then◌else◌, Bool-cases,
}
use ltm.Go.Time.{ltb_64}
use ltm.Daemon.Flush.{
  Batcher, Next, Settings, Signal, Sink, after_drain, append, drain_ready, emptied, event, flush,
  flush_batch, go, go_unless, mark_dropped, pause, proceed, run, step, stop, tick, write_batch,
}
use ltm.Storage.Event.{Error, Event}

module _ {k : Sink} (c : Settings) (P : k.State → Type 0)
    (keeps : (s : k.State) (batch : List Event) → P s → P (k.insert s batch).0) where
  write_batch-keeps : (b : Batcher k) → P b.store → P (write_batch b).0.store
  unfolding write_batch
  write_batch-keeps b h = outcome (k.insert b.store b.batch).1 (keeps b.store b.batch h)
    where
      outcome :
          (e : Option Error)
          → P (k.insert b.store b.batch).0
          → P (emptied b ((k.insert b.store b.batch).0, e)).0.store
      outcome none p = p
      outcome (some e) p = p

  mark_dropped-store : (b : Batcher k) (n : ℕ) → (mark_dropped b n).store ≡ b.store
  unfolding mark_dropped
  mark_dropped-store b n = elim (Bool-cases (ltb_64 b.last_dropped n)) [
    | inl e ↦ rw e refl
    | inr e ↦ rw e refl
  ]

  flush-keeps : (b : Batcher k) → P b.store → P (flush c b).0.store
  unfolding flush
  flush-keeps b h = outcome b.batch
    where
      outcome : (events : List Event) → P (flush_batch c b events).0.store
      outcome [] = h
      outcome (ev ∷ events) =
          write_batch-keeps (mark_dropped b (c.dropped_fn b.calls))
            (subst P (sym (mark_dropped-store b (c.dropped_fn b.calls))) h)

  drain_ready-store : (b : Batcher k) (s : List Signal) → (drain_ready c b s).0.store ≡ b.store
  unfolding drain_ready append
  drain_ready-store b [] = refl
  drain_ready-store b (event ev ∷ s) = elim (Bool-cases (ltb (length b.batch) c.max_batch)) [
    | inl e ↦ rw e (drain_ready-store (append b ev) s)
    | inr e ↦ rw e refl
  ]
  drain_ready-store b (pause ∷ s) = elim (Bool-cases (ltb (length b.batch) c.max_batch)) [
    | inl e ↦ rw e refl
    | inr e ↦ rw e refl
  ]
  drain_ready-store b (tick cancelled ∷ s) = refl

  abbrev Holds : Next k → Type 0
  Holds (go b s) = P b.store
  Holds (stop b e) = P b.store

  go_unless-Holds :
      (s : List Signal) (r : Batcher k × Option Error) → P r.0.store → Holds (go_unless s r)
  go_unless-Holds s (b, none) h = h
  go_unless-Holds s (b, some e) h = h

  after_drain-Holds : (r : Batcher k × List Signal × Bool) → P r.0.store → Holds (after_drain c r)
  after_drain-Holds (b, s, true) h = go_unless-Holds s (flush c b) (flush-keeps b h)
  after_drain-Holds (b, s, false) h = flush-keeps b h

  step-Holds : (b : Batcher k) (s : List Signal) → P b.store → Holds (step c b s)
  unfolding step
  step-Holds b [] h = flush-keeps b h
  step-Holds b (pause ∷ s) h = h
  step-Holds b (tick true ∷ s) h = h
  step-Holds b (tick false ∷ s) h = go_unless-Holds s (flush c b) (flush-keeps b h)
  step-Holds b (event ev ∷ s) h = branch (leb c.batch_size (length (append b ev).batch))
    where
      branch :
          (full : Bool)
          → Holds
              (if full then after_drain c (drain_ready c (append b ev) s) else go (append b ev) s)
      branch true =
          after_drain-Holds (drain_ready c (append b ev) s)
            (subst P (sym (drain_ready-store (append b ev) s)) (unfold append in h))
      branch false = unfold append in h

  pub run-Holds :
      (fuel : ℕ) (b : Batcher k) (s : List Signal) {r : Batcher k × Option Error}
      → P b.store
      → run c fuel b s ≡ some r
      → P r.0.store
  unfolding run
  run-Holds zero b s h e = absurd (cc)
  run-Holds (suc fuel) b s {r} h e =
      outcome (step c b s) (step-Holds b s h) e (λ b' s'. run-Holds fuel b' s')
    where
      outcome :
          (n : Next k)
          → Holds n
          → proceed (run c fuel) n ≡ some r
          → ((b' : Batcher k) (s' : List Signal)
              → P b'.store
              → run c fuel b' s' ≡ some r
              → P r.0.store)
          → P r.0.store
      outcome (go b' s') p x again = again b' s' p x
      outcome (stop b' y) p x again = subst (λ q. P q.0.store) (some-injective _ _ x) p
