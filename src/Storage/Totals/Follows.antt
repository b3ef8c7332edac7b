-- ===== src/Storage/Totals/Follows.antt =====
-- What Status reports follows what InsertEvents reports, and no row lies behind LatestEventID.
use ltm.Prelude.{
  ℕ, suc, ◌+◌, ◌%◌, ◌<◌, ◌≤◌, ◌≡◌, refl, sym, ap, ◌∙◌, List, [], ◌∷◌, ◌++◌, Text, none, length,
  length-append, length-map, ltb, All, keep, arith, inl, inr, Result, ok,
}
use ltm.Go.Time.{add_64, two_64}
use ltm.Storage.Event.{Error, Event}
use ltm.Storage.Select.Meaning.{Row}
use ltm.Storage.Totals.{
  Status, Totals, latest_event_id, latest_of, latest_text, status, status_of, status_text,
  sum_dropped, totals_of,
}
use ltm.Storage.Write.Atomic.{
  AllOrNothing, dropped_sum, event_rows, insert_events-AllOrNothing, stored,
}
use ltm.Storage.Write.{Calls, Database, Store, content, event_row, insert_events}

sum_dropped-append :
    (xs ys : List Row)
    → sum_dropped (xs ++ ys) % two_64 ≡ (sum_dropped xs + sum_dropped ys) % two_64
unfolding sum_dropped
sum_dropped-append [] ys = omega arith
sum_dropped-append (r ∷ xs) ys = omega (arith, sum_dropped-append xs ys)

sum_dropped-lt : (xs : List Row) → sum_dropped xs < two_64
unfolding sum_dropped
sum_dropped-lt [] = omega arith
sum_dropped-lt (r ∷ xs) = omega arith

sum_dropped-content : (xs : List Row) → sum_dropped (content xs) ≡ sum_dropped xs
unfolding sum_dropped
sum_dropped-content [] = refl
sum_dropped-content (r ∷ xs) = ap (λ n. (r.dropped_before + n) % two_64) (sum_dropped-content xs)

dropped_sum-event_rows :
    (c : Calls) (i n : ℕ) (events : List Event)
    → dropped_sum n events % two_64 ≡ (n + sum_dropped (event_rows c i events)) % two_64
unfolding dropped_sum event_rows sum_dropped event_row
dropped_sum-event_rows c i n [] = omega arith
dropped_sum-event_rows c i n (ev ∷ events) =
    omega (arith, dropped_sum-event_rows c (suc i) (add_64 n ev.dropped_before) events)

dropped_sum-lt : (n : ℕ) (events : List Event) → n < two_64 → dropped_sum n events < two_64
unfolding dropped_sum
dropped_sum-lt n [] h = h
dropped_sum-lt n (ev ∷ events) h = dropped_sum-lt (add_64 n ev.dropped_before) events (omega arith)

length-event_rows :
    (c : Calls) (i : ℕ) (events : List Event) → length (event_rows c i events) ≡ length events
unfolding event_rows
length-event_rows c i [] = refl
length-event_rows c i (ev ∷ events) = ap suc (length-event_rows c (suc i) events)

-- What the rows of a table count to, whatever their ids.
record Counts (rows more : List Row) (events n : ℕ) : Type 0 where
  counted : length more ≡ length rows + events
  summed : sum_dropped more ≡ add_64 (sum_dropped rows) n

content-Counts :
    (c : Calls) (rows more : List Row) (events : List Event)
    → content more ≡ content rows ++ content (event_rows c 0 events)
    → Counts rows more (length events) (dropped_sum 0 events)
content-Counts c rows more events h = record {
  counted = omega (
    arith,
    ap length h,
    length-append (content rows) (content (event_rows c 0 events)),
    length-map (λ (r : Row). record r { id = 0 }) rows,
    length-map (λ (r : Row). record r { id = 0 }) more,
    length-map (λ (r : Row). record r { id = 0 }) (event_rows c 0 events),
    length-event_rows c 0 events,
  );
  summed = omega (
    arith,
    ap sum_dropped h,
    sum_dropped-append (content rows) (content (event_rows c 0 events)),
    sum_dropped-content rows,
    sum_dropped-content more,
    sum_dropped-content (event_rows c 0 events),
    dropped_sum-event_rows c 0 0 events,
    dropped_sum-lt 0 events (omega arith),
    sum_dropped-lt more,
    sum_dropped-lt rows,
  );
}

-- A status that follows another one.
pub record Grown (before after : Status) (events : List Event) (dropped : ℕ) : Type 0 where
  pub counted : after.event_count ≡ before.event_count + length events
  pub summed : after.dropped_events ≡ add_64 before.dropped_events dropped

-- If Status's statement is answered from the table before and behind a call of InsertEvents that
-- returns no error, then both calls of Status succeed, the second counts as many more events as were
-- inserted, and its dropped events are those of the first and what InsertEvents reported, as an int64.
pub status-insert_events :
    {d : Database} (c : Calls) (s : Store d) (events : List Event)
    (db db' : Text → Result Error Totals)
    → db status_text ≡ ok (totals_of (stored s))
    → db' status_text ≡ ok (totals_of (stored (insert_events c s events).store))
    → (insert_events c s events).error ≡ none
    → (before after : Status) × (status db ≡ ok before)
      × (status db' ≡ ok after)
      × Grown before after events (insert_events c s events).dropped
unfolding status totals_of
status-insert_events c s events db db' answers answers' succeeded =
    (_, _, rw answers refl, rw answers' refl, grown (insert_events-AllOrNothing c s events))
  where
    grown :
        AllOrNothing c s events (insert_events c s events)
        → Grown
            (status_of (totals_of (stored s)))
            (status_of (totals_of (stored (insert_events c s events).store)))
            events
            (insert_events c s events).dropped
    grown (inl all) =
        let counts =
          content-Counts c (stored s) (stored (insert_events c s events).store) events all.1 in
        record {
          counted = counts.counted;
          summed = counts.summed ∙ ap (λ n. add_64 (sum_dropped (stored s)) n) (sym all.2);
        }
    grown (inr nothing) = absurd (nothing.0 succeeded)

latest_of-le : (rows : List Row) → All (λ r. r.id ≤ latest_of rows) rows
unfolding latest_of
latest_of-le [] = tt
latest_of-le (r ∷ rows) = (ground arith, widen rows (latest_of-le rows))
  where
    widen :
        (xs : List Row)
        → All (λ x. x.id ≤ latest_of rows) xs
        → All (λ x. x.id ≤ latest_of (r ∷ rows)) xs
    widen [] h = tt
    widen (x ∷ xs) h = (ground (arith, h.0), widen xs h.1)

none_behind :
    (id : ℕ) (rows : List Row) → All (λ r. r.id ≤ id) rows → keep (λ r. ltb id r.id) rows ≡ []
none_behind id [] h = refl
none_behind id (r ∷ rows) h = ground (arith, h.0, none_behind id rows h.1)

-- No row of the table lies behind the id that LatestEventID gives, so a watch that begins there has
-- only what is inserted later.
latest_event_id-behind :
    (rows : List Row) (db : Text → Result Error ℕ)
    → db latest_text ≡ ok (latest_of rows)
    → (id : ℕ) × (latest_event_id db ≡ ok id) × (keep (λ r. ltb id r.id) rows ≡ [])
unfolding latest_event_id
latest_event_id-behind rows db answers =
    (latest_of rows, rw answers refl, none_behind (latest_of rows) rows (latest_of-le rows))
