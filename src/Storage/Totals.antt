-- ===== src/Storage/Totals.antt =====
-- internal/storage/query.go: Status and LatestEventID. What the driver answers to each statement is an
-- argument; `Totals` and `latest_of` are what the statements mean by SQLite's documentation: COUNT, and
-- COALESCE over MIN, MAX and SUM, with int64 values as the numbers of their bits.
pub mod Follows
use ltm.Prelude.{
  ℕ, zero, suc, ◌+◌, ◌%◌, Bool, List, [], ◌∷◌, Text, codes, length, ltb, ◌==◌, if◌then◌else◌,
  Result, ok, err, ◌>>=◌,
}
use ltm.Go.Time.{Time, ltb_64, two_64, unix}
use ltm.Storage.Event.{Error}
use ltm.Storage.Select.Meaning.{Row}

pub record Status : Type 0 where
  pub event_count : ℕ
  pub dropped_events : ℕ
  pub last_event_time : Time
  pub started_at : Time

abbrev pub no_status : Status
no_status = record { event_count = 0; dropped_events = 0; last_event_time = 0; started_at = 0 }

-- The row of Status's statement.
pub record Totals : Type 0 where
  pub count : ℕ
  pub min_ts : ℕ
  pub max_ts : ℕ
  pub dropped : ℕ

abbrev pub status_text : Text
status_text =
    codes
      "SELECT COUNT(*), COALESCE(MIN(ts), 0), COALESCE(MAX(ts), 0), COALESCE(SUM(dropped_before), 0) FROM events"

abbrev pub latest_text : Text
latest_text = codes "SELECT COALESCE(MAX(id), 0) FROM events"

-- A time that is left zero for 0.
abbrev pub time_of : ℕ → Time
time_of ts = if ts == 0 then 0 else unix ts

abbrev pub status_of : Totals → Status
status_of t = record {
  event_count = t.count;
  dropped_events = t.dropped;
  last_event_time = time_of t.max_ts;
  started_at = time_of t.min_ts;
}

unfoldable pub status : (Text → Result Error Totals) → Result Error Status
status db = do t ← db status_text; ok (status_of t)

unfoldable pub latest_event_id : (Text → Result Error ℕ) → Result Error ℕ
latest_event_id db = do id ← db latest_text; ok id

-- The greatest and the least ts of some rows.
abbrev pub later : ℕ → ℕ → ℕ
later a b = if ltb_64 a b then b else a

abbrev pub earlier : ℕ → ℕ → ℕ
earlier a b = if ltb_64 b a then b else a

abbrev pub max_ts_from : ℕ → List Row → ℕ
max_ts_from ts [] = ts
max_ts_from ts (r ∷ rows) = max_ts_from (later ts r.ts) rows

abbrev pub min_ts_from : ℕ → List Row → ℕ
min_ts_from ts [] = ts
min_ts_from ts (r ∷ rows) = min_ts_from (earlier ts r.ts) rows

unfoldable pub max_ts : List Row → ℕ
max_ts [] = 0
max_ts (r ∷ rows) = max_ts_from r.ts rows

unfoldable pub min_ts : List Row → ℕ
min_ts [] = 0
min_ts (r ∷ rows) = min_ts_from r.ts rows

-- SUM, where it does not overflow.
unfoldable pub sum_dropped : List Row → ℕ
sum_dropped [] = 0
sum_dropped (r ∷ rows) = (r.dropped_before + sum_dropped rows) % two_64

unfoldable pub totals_of : List Row → Totals
unfolding max_ts min_ts sum_dropped
totals_of rows = record {
  count = length rows;
  min_ts = min_ts rows;
  max_ts = max_ts rows;
  dropped = sum_dropped rows;
}

unfoldable pub latest_of : List Row → ℕ
latest_of [] = 0
latest_of (r ∷ rows) = let rest = latest_of rows in if ltb rest r.id then r.id else rest
