-- ===== src/Storage/Demo/Timeline.antt =====
-- The demo's events have the demo's times, and its writes are by the workers that it starts.
use ltm.Prelude.{
  ℕ, zero, suc, ◌+◌, ◌*◌, ◌%◌, ◌≡◌, refl, sym, ap, ◌∙◌, ◌-◌, pos, Bool, true, false, List, [], ◌∷◌,
  map, ◌==◌, arith, if◌then◌else◌,
}
use mathlib.Core.Path.{ap₂}
use ltm.Go.Time.{Time}
use ltm.Storage.Demo.{demo_time, worker_name, demo_event, demo_from, generate_demo_events}
use ltm.Storage.Event.{Event}

-- i, i + 1, …
abbrev pub count_up : ℕ → ℕ → List ℕ
count_up i zero = []
count_up i (suc n) = i ∷ count_up (suc i) n

either_time :
    (b : Bool) (x y : Event) {t : Time}
    → x.timestamp ≡ t
    → y.timestamp ≡ t
    → (if b then x else y).timestamp ≡ t
either_time true x y h k = h
either_time false x y h k = k

demo_event-time : (base : Time) (i : ℕ) → (demo_event base i).timestamp ≡ demo_time base i
unfolding demo_event
demo_event-time base i = either_time (i % 6 == 0) _ _ refl (
    either_time (i % 6 == 1) _ _ refl (
      either_time (i % 6 == 2) _ _ refl
        (either_time (i % 6 == 3) _ _ refl (either_time (i % 6 == 4) _ _ refl refl))))

demo_from-times :
    (base : Time) (i n : ℕ)
    → map (λ (ev : Event). ev.timestamp) (demo_from base i n) ≡ map (demo_time base) (count_up i n)
unfolding demo_from
demo_from-times base i zero = refl
demo_from-times base i (suc n) =
    ap₂ (λ t ts. t ∷ ts) (demo_event-time base i) (demo_from-times base (suc i) n)

-- There are as many events as were asked for, and event number i is i times 750 ms behind the start.
generate_demo_events-times :
    (start : Time) (n : ℕ)
    → map (λ (ev : Event). ev.timestamp) (generate_demo_events start (pos n))
      ≡ map (demo_time start) (count_up 0 n)
unfolding generate_demo_events
generate_demo_events-times start n = demo_from-times start 0 n

started_pid :
    (base : Time) (i : ℕ)
    → i % 6 ≡ 0
    → ((demo_event base i).pid ≡ pos (4200 + i)) × ((demo_event base i).comm ≡ worker_name i)
unfolding demo_event
started_pid base i h = rw h (refl, refl)

writer_pid :
    (base : Time) (i : ℕ)
    → i % 6 ≡ 1
    → ((demo_event base i).pid ≡ pos (4200 + i - 1))
      × ((demo_event base i).comm ≡ worker_name (i - 1))
unfolding demo_event
writer_pid base i h = rw h (refl, refl)

-- The write behind each worker's start is by that worker.
demo_event-writer :
    (base : Time) (k : ℕ)
    → ((demo_event base (6 * k + 1)).pid ≡ (demo_event base (6 * k)).pid)
      × ((demo_event base (6 * k + 1)).comm ≡ (demo_event base (6 * k)).comm)
demo_event-writer base k =
    let starts = started_pid base (6 * k) (omega arith) in
    let writes = writer_pid base (6 * k + 1) (omega arith) in
    (
      writes.0 ∙ ap (λ n. pos n) same_pid ∙ sym starts.0,
      writes.1 ∙ ap worker_name same_worker ∙ sym starts.1,
    )
  where
    same_pid : 4200 + (6 * k + 1) - 1 ≡ 4200 + 6 * k
    same_pid = omega arith

    same_worker : 6 * k + 1 - 1 ≡ 6 * k
    same_worker = omega arith
