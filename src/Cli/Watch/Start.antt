-- ===== src/Cli/Watch/Start.antt =====
-- internal/cli/commands_runtime.go: where runWatch begins, behind its flags. OpenReadOnly's store is its
-- Query and its LatestEventID; what it prints of the backfill is not checked for errors.
use ltm.Prelude.{
  ℕ, ℤ, Bool, true, false, List, [], ◌∷◌, ◌++◌, Text, is_empty, keep, ltb, ◌==◌, if◌then◌else◌,
  Result, ok, ◌>>=◌, ◌≡◌, refl, sym, ap, ◌∙◌, append_assoc, append-nil, Bool-cases, inl, inr,
}
use ltm.Go.Time.{Time}
use ltm.Storage.Event.{Event, Error, Filter, no_filter}
use ltm.Cli.Timeline.{Clock, TimelineError, fetched, parse_duration_or_time, timed}
use ltm.Cli.Watch.{Watch, raise_id}

pub record WatchStore : Type 0 where
  pub query : Filter → Result Error (List Event)
  pub latest_id : Result Error ℕ

module _ (match_event : Event → Bool) where
  -- The loop over the backfill.
  unfoldable pub backfill : List Event → Watch → Watch
  backfill [] w = w
  backfill (ev ∷ events) w =
      backfill events
        (raise_id ev (if match_event ev then record w { printed = w.printed ++ ev ∷ [] } else w))

  abbrev pub nothing_seen : Watch
  nothing_seen = record { last_id = 0; printed = [] }

  abbrev pub backfill_filter : Time → Time → ℤ → Filter
  backfill_filter start now limit = record no_filter {
    from = start;
    to = now;
    order_asc = true;
    limit = limit;
  }

  unfoldable pub start_backfill : Clock → Time → WatchStore → Text → ℤ → Result TimelineError Watch
  unfolding backfill
  start_backfill c now store since limit = if is_empty since then ok nothing_seen else (do
    start ← timed (parse_duration_or_time c since now)
    events ← fetched (store.query (backfill_filter start now limit))
    ok (backfill events nothing_seen))

  -- With nothing fetched, the watch begins behind the latest event.
  abbrev pub behind_latest : WatchStore → Watch → Result TimelineError Watch
  behind_latest store w =
      if w.last_id == 0
      then (do latest ← fetched store.latest_id; ok (record w { last_id = latest }))
      else ok w

  unfoldable pub start_watch : Clock → Time → WatchStore → Text → ℤ → Result TimelineError Watch
  unfolding start_backfill
  start_watch c now store since limit =
      start_backfill c now store since limit >>= behind_latest store

  -- The greatest of a number and the ids.
  abbrev pub greatest : ℕ → List Event → ℕ
  greatest n [] = n
  greatest n (ev ∷ events) = greatest (if ltb n ev.id then ev.id else n) events

  record IsBackfilled (events : List Event) (w r : Watch) : Type 0 where
    printed : r.printed ≡ w.printed ++ keep match_event events
    last : r.last_id ≡ greatest w.last_id events

  backfill-IsBackfilled :
      (events : List Event) (w : Watch) → IsBackfilled events w (backfill events w)
  unfolding backfill
  backfill-IsBackfilled [] w = record { printed = sym (append-nil w.printed); last = refl }
  backfill-IsBackfilled (ev ∷ events) w = elim (Bool-cases (match_event ev)) [
    | inl e ↦
        let rest =
          backfill-IsBackfilled events
            (raise_id ev (record w { printed = w.printed ++ ev ∷ [] })) in
        rw e (record {
          printed =
              rw e (rest.printed ∙ append_assoc w.printed (ev ∷ []) (keep match_event events));
          last = rest.last;
        })
    | inr e ↦
        let rest = backfill-IsBackfilled events (raise_id ev w) in
        rw e (record { printed = rw e rest.printed; last = rest.last })
  ]

  backfill_nothing :
      (events : List Event)
      → backfill events nothing_seen
        ≡ record { last_id = greatest 0 events; printed = keep match_event events }
  backfill_nothing events =
      let b = backfill-IsBackfilled events nothing_seen in
      ap (λ n. record { last_id = n; printed = (backfill events nothing_seen).printed }) b.last
      ∙ ap (λ xs. record { last_id = greatest 0 events; printed = xs }) b.printed

  -- A watch that starts from an earlier time, where the time parses and the store answers, has printed
  -- what matches of the fetched events, in order, and goes on behind the greatest of their ids; where
  -- that is 0, as for no events, behind the latest event of the store.
  start_watch-backfill :
      (c : Clock) (now start : Time) (store : WatchStore) (since : Text) (limit : ℤ)
      (events : List Event)
      → is_empty since ≡ false
      → parse_duration_or_time c since now ≡ ok start
      → store.query (backfill_filter start now limit) ≡ ok events
      → start_watch c now store since limit ≡ (
          if greatest 0 events == 0
          then (do
            latest ← fetched store.latest_id
            ok (record { last_id = latest; printed = keep match_event events }))
          else ok (record { last_id = greatest 0 events; printed = keep match_event events }))
  unfolding start_watch start_backfill
  start_watch-backfill c now start store since limit events some_time parsed found =
      rw (some_time, parsed, found) (ap (behind_latest store) (backfill_nothing events))
