-- ===== src/Collector/Run.antt =====
-- internal/collector/collector.go: Run. What the loop finds at `in` and at ctx.Done() is a list of
-- arrivals, and its end is the close of `in`. The result of the source is an argument.
use ltm.Prelude.{
  ℕ, ◌+◌, ◌%◌, ◌≡◌, sym, ◌∙◌, Bool, true, false, not, ◌&&◌, ◌||◌, List, [], ◌∷◌, ◌++◌, Text, Option,
  none, some, length, append_assoc, append-nil, arith, if◌then◌else◌, Bool-cases, inl, inr,
}
use ltm.Go.Time.{add_64, two_64}
use ltm.Storage.Event.{Event, Error, cancelled}
use ltm.Collector.Filter.{new_ignore_rules, should_ignore_path}

-- An event, with whether `out` has room for it; or ctx.Done().
pub data Arrival : Type 0 where
  arrived : Event → Bool → Arrival
  done : Arrival

-- What went to `out`, and the counter of dropped events, an int64.
pub record Forwarded : Type 0 where
  pub sent : List Event
  pub dropped : ℕ

module _ (rules : List Text) where
  -- The event's path or its old path is ignored.
  abbrev pub ignored : Event → Bool
  ignored ev = should_ignore_path rules ev.path || should_ignore_path rules ev.old_path

  unfoldable pub forward : Event → Bool → Forwarded → Forwarded
  forward ev room f =
      if ignored ev
      then f
      else if room
      then record f { sent = f.sent ++ ev ∷ [] }
      else record f { dropped = add_64 f.dropped 1 }

  -- The loop behind ctx.Done(), to the close of `in`.
  unfoldable pub drain : Forwarded → List Arrival → Forwarded
  drain f [] = f
  drain f (arrived ev room ∷ s) = drain (forward ev room f) s
  drain f (done ∷ s) = drain f s

  unfoldable pub collect_from : Forwarded → List Arrival → Forwarded
  collect_from f [] = f
  collect_from f (arrived ev room ∷ s) = collect_from (forward ev room f) s
  collect_from f (done ∷ s) = drain f s

-- The result of the source, where a cancelled context is no error.
unfoldable pub join_source : Option Error → Option Error
join_source none = none
join_source (some cancelled) = none
join_source (some e) = some e

-- Run, on a collector that New has made.
unfoldable pub collect : List Text → Option Error → List Arrival → Forwarded × Option Error
collect ignore_paths source s = (
  collect_from (new_ignore_rules ignore_paths) (record { sent = []; dropped = 0 }) s,
  join_source source,
)

-- The events that are not ignored and for which `out` had, or did not have, room.
abbrev pub with_room : List Text → Bool → List Arrival → List Event
with_room rules room [] = []
with_room rules room (done ∷ s) = with_room rules room s
with_room rules room (arrived ev r ∷ s) =
    (if not (ignored rules ev) && (if room then r else not r) then ev ∷ [] else [])
    ++ with_room rules room s

module _ (rules : List Text) where
  record Accounts (f : Forwarded) (s : List Arrival) (r : Forwarded) : Type 0 where
    sent : r.sent ≡ f.sent ++ with_room rules true s
    dropped : r.dropped % two_64 ≡ (f.dropped + length (with_room rules false s)) % two_64

  forward-Accounts :
      (ev : Event) (room : Bool) (f : Forwarded) (s : List Arrival) (r : Forwarded)
      → Accounts (forward rules ev room f) s r
      → Accounts f (arrived ev room ∷ s) r
  unfolding forward
  forward-Accounts ev room f s r = elim (Bool-cases (ignored rules ev)) [
    | inl e ↦ rw e (λ h. record { sent = rw e h.sent; dropped = rw e h.dropped })
    | inr e ↦ rw e (by_room room e)
  ]
    where
      by_room :
          (b : Bool)
          → ignored rules ev ≡ false
          → Accounts
              (if b
                then record f { sent = f.sent ++ ev ∷ [] }
                else record f { dropped = add_64 f.dropped 1 })
              s
              r
          → Accounts f (arrived ev b ∷ s) r
      by_room true e h = record {
        sent = rw e (h.sent ∙ append_assoc f.sent (ev ∷ []) (with_room rules true s));
        dropped = rw e h.dropped;
      }
      by_room false e h = record { sent = rw e h.sent; dropped = rw e (omega (arith, h.dropped)) }

  drain-Accounts : (f : Forwarded) (s : List Arrival) → Accounts f s (drain rules f s)
  unfolding drain
  drain-Accounts f [] = record { sent = sym (append-nil f.sent); dropped = omega arith }
  drain-Accounts f (arrived ev room ∷ s) =
      forward-Accounts ev room f s _ (drain-Accounts (forward rules ev room f) s)
  drain-Accounts f (done ∷ s) =
      let rest = drain-Accounts f s in record { sent = rest.sent; dropped = rest.dropped }

  collect_from-Accounts : (f : Forwarded) (s : List Arrival) → Accounts f s (collect_from rules f s)
  unfolding collect_from
  collect_from-Accounts f [] = record { sent = sym (append-nil f.sent); dropped = omega arith }
  collect_from-Accounts f (arrived ev room ∷ s) =
      forward-Accounts ev room f s _ (collect_from-Accounts (forward rules ev room f) s)
  collect_from-Accounts f (done ∷ s) =
      let rest = drain-Accounts f s in record { sent = rest.sent; dropped = rest.dropped }

-- Run sends on, in their order, exactly the events that no rule ignores and for which there was room,
-- and the counter of dropped events is how many of the others no rule ignores, as 64 bits; wherever
-- the context is cancelled among the arrivals, since what the source has produced is drained.
pub collect-Accounts :
    (ignore_paths : List Text) (source : Option Error) (s : List Arrival)
    → ((collect ignore_paths source s).0.sent ≡ with_room (new_ignore_rules ignore_paths) true s)
      × ((collect ignore_paths source s).0.dropped % two_64
          ≡ length (with_room (new_ignore_rules ignore_paths) false s) % two_64)
unfolding collect
collect-Accounts ignore_paths source s =
    let a =
      collect_from-Accounts (new_ignore_rules ignore_paths) (record { sent = []; dropped = 0 }) s in
    (a.sent, omega (arith, a.dropped))
