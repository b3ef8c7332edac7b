-- ===== src/Daemon/Shutdown/Returns.antt =====
-- That runWithSource in internal/daemon/service.go returns.
use ltm.Prelude.{
  ℕ, ◌+◌, ◌≤◌, ◌<◌, Bool, true, false, none, ◌≡◌, refl, arith, inl, inr, ◌⊎◌, Bool-cases,
}
use ltm.Daemon.Service.{
  Phase, Run, Service, Step, Task, begin, cancel, close, close_ingest, closing, collector_ends,
  ended, flush_ends, join_collector, join_flush, joining_collector, joining_flush, next, on_cancel,
  on_collector, on_flush, received, returned, select_collector, select_done, select_flush,
  selecting, skip_collector, skip_flush, wait_collector, wait_flush, working,
}
use ltm.Daemon.Shutdown.{IsSound, Run-IsSound}

-- How many steps are left at most.
abbrev to_return : Phase → ℕ
to_return selecting = 4
to_return joining_collector = 3
to_return closing = 2
to_return joining_flush = 1
to_return returned = 0

abbrev to_end : Task → ℕ
to_end working = 1
to_end (ended e) = 0
to_end (received e) = 0

abbrev one_unless : Bool → ℕ
one_unless true = 0
one_unless false = 1

unfoldable work : Service → ℕ
work s = to_return s.phase + to_end s.collector + to_end s.flush + one_unless s.cancelled

work-Step : {s t : Service} → Step s t → work t < work s
unfolding work on_cancel on_collector on_flush join_collector close_ingest join_flush
work-Step (cancel e) = ground arith
work-Step (collector_ends e w) = ground arith
work-Step (flush_ends e w b) = ground arith
work-Step (select_done p c) = ground arith
work-Step (select_collector e p r) = ground arith
work-Step (select_flush e p r) = ground arith
work-Step (wait_collector e p d r) = ground arith
work-Step (skip_collector p d) = ground arith
work-Step (close p) = ground arith
work-Step (wait_flush e p d r) = ground arith
work-Step (skip_flush p d) = ground arith

work-Run : {n : ℕ} {s : Service} → Run n s → n + work s ≤ 7
unfolding work
work-Run begin = omega arith
work-Run (next r st) = omega (arith, work-Run r, work-Step st)

-- What has to come of itself: the service's own steps; the collector's end, once its context is
-- cancelled; and the flush stage's end without an error, once `ingest` is closed. Neither an error of a
-- task nor the caller's cancellation, nor the end of a collector that is not told to end, is due.
abbrev pub IsDue : {s t : Service} → Step s t → Type 0
IsDue (cancel e) = ⊥
IsDue {s} (collector_ends e w) = s.cancelled ≡ true
IsDue {s} (flush_ends e w b) = (s.closed ≡ true) × (e ≡ none)
IsDue (select_done p c) = Unit
IsDue (select_collector e p r) = Unit
IsDue (select_flush e p r) = Unit
IsDue (wait_collector e p d r) = Unit
IsDue (skip_collector p d) = Unit
IsDue (close p) = Unit
IsDue (wait_flush e p d r) = Unit
IsDue (skip_flush p d) = Unit

-- Nothing is due.
abbrev pub IsQuiet : Service → Type 0
IsQuiet s = (t : Service) (st : Step s t) → ¬ (IsDue st)

-- The service records: it is at its select, nothing has told it to stop, and both tasks are at work.
abbrev pub IsRecording : Service → Type 0
IsRecording s =
    (s.phase ≡ selecting) × (s.cancelled ≡ false) × (s.collector ≡ working) × (s.flush ≡ working)

-- Where it has not returned and does not record, something is due.
GoesOn : Service → Type 0
GoesOn s = (s.phase ≡ returned) ⊎ IsRecording s ⊎ ((t : Service) × (st : Step s t) × IsDue st)

collector_goes :
    (s : Service) (k : Task)
    → s.collector ≡ k
    → s.phase ≡ joining_collector
    → s.col_done ≡ false
    → s.cancelled ≡ true
    → IsSound s
    → GoesOn s
unfolding GoesOn
collector_goes s working e p d c h = inr (inr (_, collector_ends none e, c))
collector_goes s (ended x) e p d c h = inr (inr (_, wait_collector x p d e, tt))
collector_goes s (received x) e p d c h = absurd (ground arith)

flush_goes :
    (s : Service) (k : Task)
    → s.flush ≡ k
    → s.phase ≡ joining_flush
    → s.flush_done ≡ false
    → s.closed ≡ true
    → IsSound s
    → GoesOn s
unfolding GoesOn
flush_goes s working e p d c h = inr (inr (_, flush_ends none e (inl c), (c, refl)))
flush_goes s (ended x) e p d c h = inr (inr (_, wait_flush x p d e, tt))
flush_goes s (received x) e p d c h = absurd (ground arith)

select_goes :
    (s : Service) (k l : Task)
    → s.collector ≡ k
    → s.flush ≡ l
    → s.phase ≡ selecting
    → s.cancelled ≡ false
    → IsSound s
    → GoesOn s
unfolding GoesOn
select_goes s working working e f p c h = inr (inl (p, c, e, f))
select_goes s (ended x) l e f p c h = inr (inr (_, select_collector x p e, tt))
select_goes s working (ended x) e f p c h = inr (inr (_, select_flush x p f, tt))
select_goes s (received x) l e f p c h = absurd (ground (arith, h.place))
select_goes s working (received x) e f p c h = absurd (ground (arith, h.place))

goes : (s : Service) (at : Phase) → s.phase ≡ at → IsSound s → GoesOn s
unfolding GoesOn
goes s selecting p h = elim (Bool-cases s.cancelled) [
  | inl e ↦ inr (inr (_, select_done p e, tt))
  | inr e ↦ select_goes s s.collector s.flush refl refl p e h
]
goes s joining_collector p h = elim (Bool-cases s.col_done) [
  | inl e ↦ inr (inr (_, skip_collector p e, tt))
  | inr e ↦ collector_goes s s.collector refl p e (ground (arith, h.place)) h
]
goes s closing p h = inr (inr (_, close p, tt))
goes s joining_flush p h = elim (Bool-cases s.flush_done) [
  | inl e ↦ inr (inr (_, skip_flush p e, tt))
  | inr e ↦ flush_goes s s.flush refl p e (ground (arith, h.place)) h
]
goes s returned p h = inl p

quiet_outcome : (s : Service) → GoesOn s → IsQuiet s → (s.phase ≡ returned) ⊎ IsRecording s
unfolding GoesOn
quiet_outcome s (inl p) quiet = inl p
quiet_outcome s (inr (inl r)) quiet = inr r
quiet_outcome s (inr (inr (t, st, due))) quiet = absurd (quiet t st due)

-- A service takes no more than 7 steps with its tasks' ends, whatever their order; and where nothing is
-- due (no step of its own, no end of a collector that is cancelled, no end without an error of a flush
-- stage whose `ingest` is closed), runWithSource has returned, or it still records: it is at its
-- select, is not cancelled, and both tasks are at work. So once it is cancelled or a task has ended, it
-- waits for nothing that need not come.
pub Run-Ends :
    {n : ℕ} {s : Service} → Run n s → (n ≤ 7) × (IsQuiet s → (s.phase ≡ returned) ⊎ IsRecording s)
Run-Ends {s} r = (omega (arith, work-Run r), quiet_outcome s (goes s s.phase refl (Run-IsSound r)))
