-- ===== src/Daemon/Drops.antt =====
-- The drops that droppedFn reports go into DroppedBefore of the stored events, each once.
pub mod Runs
use mathlib.Core.Option.{some-injective}
use mathlib.Core.Path.{subst}
use ltm.Prelude.{
  ℕ, zero, suc, ◌+◌, ◌%◌, ◌≡◌, refl, sym, ap, ◌∙◌, Bool, true, false, List, [], ◌∷◌, ◌++◌, Option,
  none, some, leb, ltb, length, arith, if◌then◌else◌, Bool-cases, inl, inr,
}
use ltm.Go.Time.{add_64, ltb_64, sub_64, two_64}
use ltm.Daemon.Conserves.{events_of}
use ltm.Daemon.Flush.{
  Batcher, Next, Settings, Signal, Sink, add_to_first, after_drain, append, drain_ready, emptied,
  event, finish, flush, flush_batch, flush_loop, go, go_unless, mark_dropped, pause, proceed, run,
  start, step, stop, tick, write_batch,
}
use ltm.Storage.Event.{Error, Event}

-- The sum of DroppedBefore.
abbrev pub drops : List Event → ℕ
drops [] = 0
drops (ev ∷ events) = ev.dropped_before + drops events

pub drops-append : (xs ys : List Event) → drops (xs ++ ys) ≡ drops xs + drops ys
drops-append [] ys = omega arith
drops-append (x ∷ xs) ys = omega (arith, drops-append xs ys)

-- The greatest count of the first calls of droppedFn, from 0 on, as an int64.
abbrev pub greatest_count : (ℕ → ℕ) → ℕ → ℕ
greatest_count f zero = 0
greatest_count f (suc n) = let best = greatest_count f n in if ltb_64 best (f n) then f n else best

drops-add_to_first :
    (cur last : ℕ) (ev : Event) (events : List Event)
    → (drops (add_to_first (sub_64 cur last) (ev ∷ events)) + last) % two_64
      ≡ (drops (ev ∷ events) + cur) % two_64
drops-add_to_first cur last ev events = omega arith

greatest_count-next :
    (f : ℕ → ℕ) (n : ℕ) {best : ℕ}
    → best ≡ greatest_count f n
    → greatest_count f (n + 1) ≡ (if ltb_64 best (f n) then f n else best)
greatest_count-next f n h =
    let next : n + 1 ≡ suc n = omega arith in
    ap (greatest_count f) next ∙ ap (λ m. if ltb_64 m (f n) then f n else m) (sym h)

module _ {k : Sink} (c : Settings) where
  -- The drops that are stored, in the batch and still to come are those there were in all and those that
  -- have been reported.
  pub record IsBalanced (all : ℕ) (b : Batcher k) (s : List Signal) : Type 0 where
    pub sum :
        (drops (k.stored b.store) + drops b.batch + drops (events_of s)) % two_64
        ≡ (all + b.last_dropped) % two_64
    pub counted : b.last_dropped ≡ greatest_count c.dropped_fn b.calls

  mark_dropped-IsBalanced :
      (all : ℕ) (b : Batcher k) (s : List Signal) (ev : Event) (events : List Event)
      → b.batch ≡ ev ∷ events
      → IsBalanced all b s
      → IsBalanced all (mark_dropped b (c.dropped_fn b.calls)) s
  unfolding mark_dropped
  mark_dropped-IsBalanced all b s ev events h i =
      elim (Bool-cases (ltb_64 b.last_dropped (c.dropped_fn b.calls))) [
        | inl e ↦ rw e (record {
          sum = omega (
            arith,
            i.sum,
            ap (λ xs. drops (add_to_first (sub_64 (c.dropped_fn b.calls) b.last_dropped) xs)) h,
            ap drops h,
            drops-add_to_first (c.dropped_fn b.calls) b.last_dropped ev events,
          );
          counted = sym (greatest_count-next c.dropped_fn b.calls i.counted ∙ rw e refl);
        })
        | inr e ↦ rw e (record {
          sum = i.sum;
          counted = sym (greatest_count-next c.dropped_fn b.calls i.counted ∙ rw e refl);
        })
      ]

  -- Behind a flush with no error the batch is empty.
  pub record IsFlushed (all : ℕ) (s : List Signal) (r : Batcher k × Option Error) : Type 0 where
    pub balanced : IsBalanced all r.0 s
    pub empty : r.1 ≡ none → r.0.batch ≡ []

  write_batch-IsFlushed :
      (all : ℕ) (b : Batcher k) (s : List Signal)
      → IsBalanced all b s
      → IsFlushed all s (write_batch b)
  unfolding write_batch
  write_batch-IsFlushed all b s i = outcome (k.insert b.store b.batch).1 refl
    where
      outcome :
          (e : Option Error)
          → (k.insert b.store b.batch).1 ≡ e
          → IsFlushed all s (emptied b ((k.insert b.store b.batch).0, e))
      outcome none h = record {
        balanced = record {
          sum = omega (
            arith,
            i.sum,
            ap drops (k.insert_law b.store b.batch h),
            drops-append (k.stored b.store) b.batch,
          );
          counted = i.counted;
        };
        empty = λ x. refl;
      }
      outcome (some e) h = record {
        balanced = record {
          sum = omega (arith, i.sum, ap drops (k.insert_error_law b.store b.batch e h));
          counted = i.counted;
        };
        empty = λ x. absurd (cc);
      }

  pub flush-IsFlushed :
      (all : ℕ) (b : Batcher k) (s : List Signal) → IsBalanced all b s → IsFlushed all s (flush c b)
  unfolding flush
  flush-IsFlushed all b s i = outcome b.batch refl
    where
      outcome : (events : List Event) → b.batch ≡ events → IsFlushed all s (flush_batch c b events)
      outcome [] h = record { balanced = i; empty = λ x. h }
      outcome (ev ∷ events) h =
          write_batch-IsFlushed all (mark_dropped b (c.dropped_fn b.calls)) s
            (mark_dropped-IsBalanced all b s ev events h i)
