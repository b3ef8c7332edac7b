-- ===== src/Diff/Processes.antt =====
-- New processes: one for each pid that starts.
use ltm.Prelude.{
  ℕ, suc, ◌+◌, ◌≡◌, refl, sym, ap, ◌∙◌, ℤ, eq_ℤ, eq_ℤ_iff, Bool, true, false, ◌&&◌, ◌||◌, List, [],
  ◌∷◌, ◌++◌, any, arith, if◌then◌else◌, Bool-cases, inl, inr, ◌⊎◌,
}
use ltm.Go.Time.{Time}
use ltm.Storage.Event.{Event}
use ltm.Diff.Actions.{is_kind, of_kind}
use ltm.Diff.Report.{
  Kind, started, exited, modified, deleted, listening, outbound, other, kind_of, Scan,
  ProcessChange, add_new_process, add_restart, add_exit, add_modified, scan_kind, scan_events,
  scan_all, report_of,
}

-- How often a pid is listed.
unfoldable pub pid_count : ℤ → List ProcessChange → ℕ
pid_count pid [] = 0
pid_count pid (p ∷ ps) = if eq_ℤ p.pid pid then suc (pid_count pid ps) else pid_count pid ps

-- Some event starts a process with the pid.
abbrev pub starts_pid : ℤ → Event → Bool
starts_pid pid ev = of_kind started ev && eq_ℤ ev.pid pid

pid_count-append :
    (pid : ℤ) (ps qs : List ProcessChange)
    → pid_count pid (ps ++ qs) ≡ pid_count pid ps + pid_count pid qs
unfolding pid_count
pid_count-append pid [] qs = omega arith
pid_count-append pid (p ∷ ps) qs = ground (arith, pid_count-append pid ps qs)

seen_pid : ℤ → Scan → Bool
seen_pid pid s = any (λ p. eq_ℤ p pid) s.seen_new_pid

-- A pid that has been seen is listed once, and no other is listed.
IsCounted : ℤ → Scan → Type 0
IsCounted pid s = pid_count pid s.report.new_processes ≡ (if seen_pid pid s then 1 else 0)

record Added (pid : ℤ) (ev : Event) (s : Scan) : Type 0 where
  counted : IsCounted pid (add_new_process ev s)
  seen : seen_pid pid (add_new_process ev s) ≡ (seen_pid pid s || eq_ℤ ev.pid pid)

eq_ℤ_refl : (a : ℤ) → eq_ℤ a a ≡ true
eq_ℤ_refl a = (eq_ℤ_iff a a).1 refl

or-true : (b : Bool) → (b || true) ≡ true
or-true b = ground arith

or-false : (b : Bool) → b ≡ (b || false)
or-false b = ground arith

or_assoc : (a b c : Bool) → ((a || b) || c) ≡ (a || (b || c))
or_assoc a b c = ground arith

or_comm : (b c : Bool) → (b || c) ≡ (c || b)
or_comm b c = ground arith

any_same_pid :
    (a b : ℤ) (pids : List ℤ)
    → eq_ℤ a b ≡ true
    → any (λ p. eq_ℤ p a) pids ≡ any (λ p. eq_ℤ p b) pids
any_same_pid a b pids h = ap (λ j. any (λ p. eq_ℤ p j) pids) ((eq_ℤ_iff a b).0 h)

-- One more item is counted where it has the pid.
pid_count_one :
    (pid : ℤ) (ps : List ProcessChange) (p : ProcessChange)
    → pid_count pid (ps ++ p ∷ []) ≡ pid_count pid ps + (if eq_ℤ p.pid pid then 1 else 0)
unfolding pid_count
pid_count_one pid ps p = ground (arith, pid_count-append pid ps (p ∷ []))

add_new_process-Added : (pid : ℤ) (ev : Event) (s : Scan) → IsCounted pid s → Added pid ev s
unfolding IsCounted add_new_process seen_pid
add_new_process-Added pid ev s h = elim (Bool-cases (any (λ p. eq_ℤ p ev.pid) s.seen_new_pid)) [
  | inl e ↦ elim (Bool-cases (eq_ℤ ev.pid pid)) [
    | inl f ↦ record {
      counted = rw e h;
      seen = rw (e, f) (sym (any_same_pid ev.pid pid s.seen_new_pid f) ∙ e ∙ sym (or-true _));
    }
    | inr f ↦ record { counted = rw e h; seen = rw (e, f) (or-false _) }
  ]
  | inr e ↦ record {
    counted = rw e (pid_count_one pid _ _ ∙ counts (Bool-cases (eq_ℤ ev.pid pid)) e);
    seen = rw e (or_comm (eq_ℤ ev.pid pid) (any (λ p. eq_ℤ p pid) s.seen_new_pid));
  }
]
  where
    counts :
        (eq_ℤ ev.pid pid ≡ true) ⊎ (eq_ℤ ev.pid pid ≡ false)
        → any (λ p. eq_ℤ p ev.pid) s.seen_new_pid ≡ false
        → pid_count pid s.report.new_processes + (if eq_ℤ ev.pid pid then 1 else 0)
          ≡ (if eq_ℤ ev.pid pid || any (λ p. eq_ℤ p pid) s.seen_new_pid then 1 else 0)
    counts (inl f) e =
        let unseen = sym (any_same_pid ev.pid pid s.seen_new_pid f) ∙ e in rw (f, h, unseen) refl
    counts (inr f) e = rw (f, h) (omega arith)

-- Neither list of pids changes.
abbrev Keeps : Scan → Scan → Type 0
Keeps s t = (t.report.new_processes ≡ s.report.new_processes) × (t.seen_new_pid ≡ s.seen_new_pid)

add_restart-Keeps : (ev : Event) (s : Scan) → Keeps s (add_restart ev s)
unfolding add_restart
add_restart-Keeps ev s = (ground arith, ground arith)

add_modified-Keeps : (ev : Event) (s : Scan) → Keeps s (add_modified ev s)
unfolding add_modified
add_modified-Keeps ev s = (ground arith, ground arith)

-- What an event does to the list and to the pids that have been seen.
abbrev IsNext : ℤ → Bool → Scan → Scan → Type 0
IsNext pid b s t = IsCounted pid t × (seen_pid pid t ≡ (seen_pid pid s || b))

IsNext-Keeps : (pid : ℤ) (b : Bool) (s t u : Scan) → IsNext pid b s t → Keeps t u → IsNext pid b s u
unfolding IsCounted seen_pid
IsNext-Keeps pid b s t u (counted, seen) (processes, pids) = rw (processes, pids) (counted, seen)

scan_kind-IsNext :
    (k : Kind) (pid : ℤ) (ev : Event) (s : Scan)
    → IsCounted pid s
    → IsNext pid (is_kind k started && eq_ℤ ev.pid pid) s (scan_kind k ev s)
unfolding scan_kind is_kind
scan_kind-IsNext started pid ev s h =
    let added = add_new_process-Added pid ev s h in
    IsNext-Keeps pid (eq_ℤ ev.pid pid) s (add_new_process ev s)
      (add_restart ev (add_new_process ev s)) (added.counted, added.seen)
      (add_restart-Keeps ev (add_new_process ev s))
scan_kind-IsNext modified pid ev s h =
    IsNext-Keeps pid false s s (add_modified ev s) (h, or-false _) (add_modified-Keeps ev s)
scan_kind-IsNext exited pid ev s h =
    IsNext-Keeps pid false s s (add_exit ev s) (h, or-false _) (unfold add_exit in (refl, refl))
scan_kind-IsNext deleted pid ev s h = IsNext-Keeps pid false s s _ (h, or-false _) (refl, refl)
scan_kind-IsNext listening pid ev s h = IsNext-Keeps pid false s s _ (h, or-false _) (refl, refl)
scan_kind-IsNext outbound pid ev s h = IsNext-Keeps pid false s s _ (h, or-false _) (refl, refl)
scan_kind-IsNext other pid ev s h = (h, or-false _)

scan_events-IsNext :
    (pid : ℤ) (s : Scan) (events : List Event)
    → IsCounted pid s
    → IsNext pid (any (starts_pid pid) events) s (scan_events s events)
unfolding scan_events of_kind
scan_events-IsNext pid s [] h = (h, or-false _)
scan_events-IsNext pid s (ev ∷ events) h =
    let first = scan_kind-IsNext (kind_of ev) pid ev s h in
    let rest = scan_events-IsNext pid (scan_kind (kind_of ev) ev s) events first.0 in
    (
      rest.0,
      rest.1
          ∙ ap (λ b. b || any (starts_pid pid) events) first.1
          ∙ or_assoc (seen_pid pid s) (starts_pid pid ev) (any (starts_pid pid) events),
    )

-- The report lists each pid that a process:exec, process:fork or process:clone event of the scanned
-- events has once, and no other pid.
pid_count-report_of :
    (pid : ℤ) (from to : Time) (events : List Event)
    → pid_count pid (report_of from to events).new_processes
      ≡ (if any (starts_pid pid) events then 1 else 0)
unfolding report_of scan_all IsCounted seen_pid pid_count
pid_count-report_of pid from to events =
    let r = scan_events-IsNext pid _ events refl in
    unfold IsCounted in r.0 ∙ ap (λ b. if b then 1 else 0) r.1
