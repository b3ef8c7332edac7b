-- ===== src/Tests/Watches.antt =====
-- A watch and a run of the collector, at concrete logs and arrivals.
use ltm.Prelude.{
  ℕ, ◌≡◌, ◌%◌, refl, pos, Bool, true, false, List, [], ◌∷◌, ◌++◌, codes, Option, none, length,
  arith,
}
use ltm.Cli.Maintain.Tails.{IsPrinted, logged_by, polled, watch_ticks-IsPrinted}
use ltm.Cli.Maintain.{watch_ticks}
use ltm.Cli.Watch.Places.{newer}
use ltm.Cli.Watch.Delivers.{begins, logs, polls, IsDelivered, fetched, watch_step-IsDelivered}
use ltm.Cli.Watch.{Watch, watch_step, watch_predicate}
use ltm.Collector.Filter.{new_ignore_rules}
use ltm.Collector.Run.{Arrival, arrived, done, collect, with_room, collect-Accounts}
use ltm.Go.Time.{two_64}
use ltm.Storage.Event.{Event, Error, no_event}

abbrev logged : ℕ → Event
logged n = record no_event { id = n; category = codes "file"; path = codes "/a" }

abbrev old_log : List Event
old_log = logged 3 ∷ logged 5 ∷ []

abbrev file_events : Event → Bool
file_events = watch_predicate (codes "file" ∷ []) [] []

abbrev printer : List Event → Event → Option Error
printer p ev = none

abbrev after_poll : Watch
after_poll =
    (watch_step file_events printer
      (fetched file_events printer (λ p ev. refl) (old_log ++ logged 8 ∷ [])) (pos 2)
      (record { last_id = 4; printed = [] })).0

watch_step-IsDelivered_example :
    IsDelivered file_events printer (λ p ev. refl) old_log 4 (old_log ++ logged 8 ∷ []) after_poll
watch_step-IsDelivered_example =
    watch_step-IsDelivered file_events printer (λ p ev. refl) (pos 2) old_log 4
      ((omega arith, tt), (tt, tt))
      (polls (old_log ++ logged 8 ∷ []) (record { last_id = 4; printed = [] })
        (logs old_log (record { last_id = 4; printed = [] }) (logged 8)
          (omega arith, (omega arith, tt)) (omega arith) begins))

watch_ticks-IsPrinted_example :
    IsPrinted file_events printer
      (λ p ev. refl)
      (pos 2)
      (record { last_id = 4; printed = [] })
      (newer 4 (old_log ++ logged_by ((logged 8 ∷ []) ∷ (logged 9 ∷ []) ∷ [])))
      (watch_ticks file_events printer
        (polled file_events printer
          (λ p ev. refl)
          (pos 2)
          old_log
          ((logged 8 ∷ []) ∷ (logged 9 ∷ []) ∷ [])
          2)
        (pos 2)
        (record { last_id = 4; printed = [] }))
watch_ticks-IsPrinted_example =
    watch_ticks-IsPrinted file_events printer (λ p ev. refl) (pos 2)
      (record { last_id = 4; printed = [] }) old_log ((logged 8 ∷ []) ∷ (logged 9 ∷ []) ∷ []) 2
      (
        (omega arith, (omega arith, (omega arith, tt))),
        ((omega arith, (omega arith, tt)), ((omega arith, tt), (tt, tt))),
      )
      (omega arith, (omega arith, tt)) (omega arith)

abbrev arrivals : List Arrival
arrivals =
    arrived (logged 1) true
    ∷ arrived (logged 2) false
    ∷ done
    ∷ arrived (record no_event { path = codes "/proc/1" }) true
    ∷ arrived (logged 4) true
    ∷ []

collect-Accounts_example :
    ((collect [] none arrivals).0.sent ≡ with_room (new_ignore_rules []) true arrivals)
    × ((collect [] none arrivals).0.dropped % two_64
        ≡ length (with_room (new_ignore_rules []) false arrivals) % two_64)
collect-Accounts_example = collect-Accounts [] none arrivals
