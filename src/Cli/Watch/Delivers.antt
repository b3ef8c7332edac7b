-- ===== src/Cli/Watch/Delivers.antt =====
-- Watching prints every matching event that is logged behind its start once, in order.
use mathlib.Core.Path.{subst}
use ltm.Prelude.{
  ℕ, zero, suc, ◌≤◌, ◌<◌, ◌≡◌, refl, sym, ap, ◌∙◌, ℤ, pos, negsuc, Bool, true, List, [], ◌∷◌, ◌++◌,
  Option, none, ltb, keep, keep-append, take, drop, All, append_assoc, append-nil, arith,
  Bool-cases, inl, inr, Result, ok,
}
use ltm.Storage.Event.{Event, Error}
use ltm.Cli.Watch.{Watch, write_event, print_event, print_events, watch_step}
use ltm.Cli.Watch.Places.{
  IsAscending, newer, newer_of_new, At, At-newer, At-next, At-begins, take-drop, At-log,
}

module _ (match_event : Event → Bool) (write : List Event → Event → Option Error)
    (works : (p : List Event) (ev : Event) → write p ev ≡ none) where
  pub record Printed (log : List Event) (n : ℕ) (w : Watch) (rest : List Event)
      (r : Watch × Option Error) : Type 0 where
    pub no_error : r.1 ≡ none
    pub printed : r.0.printed ≡ w.printed ++ keep match_event (take n rest)
    pub at : At log r.0.last_id (drop n rest)
    raised : w.last_id ≤ r.0.last_id

  -- The watch behind an event.
  abbrev behind : Event → Watch → Watch
  behind ev w = record { last_id = ev.id; printed = w.printed ++ keep match_event (ev ∷ []) }

  print_event_ok :
      (ev : Event) (w : Watch)
      → print_event match_event write ev w
        ≡ ok (record w { printed = w.printed ++ keep match_event (ev ∷ []) })
  unfolding print_event
  print_event_ok ev w = elim (Bool-cases (match_event ev)) [
    | inl e ↦ rw e (ap (write_event match_event write ev w) (works w.printed ev))
    | inr e ↦ rw e (ap (λ xs. ok (record w { printed = xs })) (sym (append-nil w.printed)))
  ]

  print_one :
      (ev : Event) (w : Watch) (xs : List Event)
      → w.last_id < ev.id
      → print_events match_event write (ev ∷ xs) w ≡ print_events match_event write xs (behind ev w)
  unfolding print_events
  print_one ev w xs h = rw (print_event_ok ev w, print_events, below_id) refl
    where
      below_id : ltb w.last_id ev.id ≡ true
      below_id = ground (arith, h)

  pub print_events-Printed :
      {log : List Event} (n : ℕ) (w : Watch) (rest : List Event)
      → At log w.last_id rest
      → Printed log n w rest (print_events match_event write (take n rest) w)
  unfolding print_events print_event
  print_events-Printed zero w rest at = record {
    no_error = refl;
    printed = sym (append-nil w.printed);
    at = at;
    raised = omega arith;
  }
  print_events-Printed (suc n) w [] at = record {
    no_error = refl;
    printed = sym (append-nil w.printed);
    at = at;
    raised = omega arith;
  }
  print_events-Printed {log} (suc n) w (ev ∷ rest) at =
      let later = print_events-Printed n (behind ev w) rest (At-next ev rest at) in
      subst (Printed log (suc n) w (ev ∷ rest)) (sym (print_one ev w (take n rest) at.above.0))
        (record {
          no_error = later.no_error;
          printed =
              later.printed
              ∙ append_assoc w.printed (keep match_event (ev ∷ [])) (keep match_event (take n rest))
              ∙ ap (λ xs. w.printed ++ xs) (sym (keep-append match_event (ev ∷ []) (take n rest)));
          at = later.at;
          raised = omega (arith, at.above.0, later.raised);
        })

  -- How many events a call wants.
  abbrev pub batch : ℤ → ℕ
  batch (pos zero) = 500
  batch (pos (suc n)) = suc n
  batch (negsuc n) = 500

  -- The log, with EventsAfterID as SQLite runs it.
  abbrev pub fetched : List Event → ℕ → ℤ → Result Error (List Event)
  fetched log last limit = ok (take (batch limit) (newer last log))

  watch_step-Printed :
      (log : List Event) (limit : ℤ) (w : Watch) (rest : List Event)
      → At log w.last_id rest
      → Printed log (batch limit) w rest (watch_step match_event write (fetched log) limit w)
  unfolding watch_step
  watch_step-Printed log limit w rest at =
      rw (At-newer at) (print_events-Printed (batch limit) w rest at)

  -- A watch and the log: it begins at some id; events are logged with greater ids; and it polls.
  pub data Watching (limit : ℤ) (start : List Event) (last : ℕ) : List Event → Watch → Type 0 where
    begins : Watching limit start last start (record { last_id = last; printed = [] })
    logs :
        (log : List Event) (w : Watch) (ev : Event)
        → All (λ e. e.id < ev.id) log
        → w.last_id < ev.id
        → Watching limit start last log w
        → Watching limit start last (log ++ ev ∷ []) w
    polls :
        (log : List Event) (w : Watch)
        → Watching limit start last log w
        → Watching limit start last log (watch_step match_event write (fetched log) limit w).0

  -- What has been printed is what matches of the events that were logged behind the start, up to the
  -- watch's id; the others are still before it.
  pub record IsDelivered (start : List Event) (last : ℕ) (log : List Event) (w : Watch)
      : Type 0 where
    pub delivered : List Event
    pub printed : w.printed ≡ keep match_event delivered
    pub all : newer last log ≡ delivered ++ newer w.last_id log

  record Followed (start : List Event) (last : ℕ) (log : List Event) (w : Watch) : Type 0 where
    rest : List Event
    delivered : List Event
    printed : w.printed ≡ keep match_event delivered
    at : At log w.last_id rest
    all : newer last log ≡ delivered ++ rest
    after : last ≤ w.last_id

  Watching-Followed :
      (limit : ℤ) (start : List Event) (last : ℕ) {log : List Event} {w : Watch}
      → IsAscending start
      → Watching limit start last log w
      → Followed start last log w
  Watching-Followed limit start last asc begins = record {
    rest = newer last start;
    delivered = [];
    printed = refl;
    at = At-begins last start asc;
    all = refl;
    after = omega arith;
  }
  Watching-Followed limit start last asc (logs log w ev greater behind before) =
      let f = Watching-Followed limit start last asc before in
      record {
        rest = f.rest ++ ev ∷ [];
        delivered = f.delivered;
        printed = f.printed;
        at = At-log log w.last_id f.rest ev greater behind f.at;
        all =
            keep-append (λ e. ltb last e.id) log (ev ∷ [])
            ∙ ap (λ xs. xs ++ newer last (ev ∷ [])) f.all
            ∙ ap (λ xs. (f.delivered ++ f.rest) ++ xs)
                (newer_of_new last (ev ∷ []) (omega (arith, f.after, behind), tt))
            ∙ append_assoc f.delivered f.rest (ev ∷ []);
        after = f.after;
      }
  Watching-Followed limit start last asc (polls log w before) =
      let f = Watching-Followed limit start last asc before in
      let p = watch_step-Printed log limit w f.rest f.at in
      record {
        rest = drop (batch limit) f.rest;
        delivered = f.delivered ++ take (batch limit) f.rest;
        printed =
            p.printed
            ∙ ap (λ xs. xs ++ keep match_event (take (batch limit) f.rest)) f.printed
            ∙ sym (keep-append match_event f.delivered (take (batch limit) f.rest));
        at = p.at;
        all =
            f.all
            ∙ ap (λ xs. f.delivered ++ xs) (sym (take-drop (batch limit) f.rest))
            ∙ sym
                (append_assoc f.delivered (take (batch limit) f.rest) (drop (batch limit) f.rest));
        after = omega (arith, f.after, p.raised);
      }

  -- However a watch polls while events are logged with greater ids, and with a writer that does not
  -- fail: what it has printed is what matches of a first part of the events behind its start, in
  -- order and once each, and what it has not been given of them is what is behind its id.
  pub watch_step-IsDelivered :
      (limit : ℤ) (start : List Event) (last : ℕ) {log : List Event} {w : Watch}
      → IsAscending start
      → Watching limit start last log w
      → IsDelivered start last log w
  watch_step-IsDelivered limit start last {log} {w} ascending trace =
      let f = Watching-Followed limit start last ascending trace in
      record {
        delivered = f.delivered;
        printed = f.printed;
        all = f.all ∙ ap (λ xs. f.delivered ++ xs) (sym (At-newer f.at));
      }
