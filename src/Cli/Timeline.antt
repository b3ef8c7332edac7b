-- ===== src/Cli/Timeline.antt =====
-- internal/cli: parseDurationOrTime of commands_query.go, and runTimeline of commands_runtime.go behind
-- its flags. The parsers of package time are arguments; `none` is their error.
pub mod Reversed
use ltm.Prelude.{
  ℕ, zero, suc, ◌+◌, ◌-◌, ℤ, pos, Bool, List, [], ◌∷◌, Text, codes, Option, none, some, is_empty,
  text_eq, ltb, get_or, length, if◌then◌else◌, Result, ok, err, ◌>>=◌,
}
use ltm.Go.Time.{Time}
use ltm.Storage.Event.{Event, Error, Filter, no_event, no_filter}

-- time.ParseDuration with now.Add(-d), and time.ParseInLocation with its layout.
pub record Clock : Type 0 where
  pub before : Time → Text → Option Time
  pub parse_in : Text → Text → Option Time

abbrev pub layouts : List Text
layouts =
    codes "2006-01-02 15:04"
    ∷ codes "2006-01-02 15:04:05"
    ∷ codes "2006-01-02T15:04:05Z07:00"
    ∷ codes "2006-01-02T15:04:05.999999999Z07:00"
    ∷ []

pub data TimeError : Type 0 where
  empty_time : TimeError
  no_time : Text → TimeError

module _ (c : Clock) where
  unfoldable pub parse_layouts : Text → List Text → Result TimeError Time
  parse_layouts input [] = err (no_time input)
  parse_layouts input (layout ∷ rest) =
      let later = parse_layouts input rest in
      elim (c.parse_in layout input) [ some t ↦ ok t | none ↦ later ]

  unfoldable pub parse_duration_or_time : Text → Time → Result TimeError Time
  unfolding parse_layouts text_eq
  parse_duration_or_time input now =
      if is_empty input
      then err empty_time
      else if text_eq input (codes "now")
      then ok now
      else elim (c.before now input) [ some t ↦ ok t | none ↦ parse_layouts input layouts ]

-- `events[i] = x`.
unfoldable pub set_at : List Event → ℕ → Event → List Event
set_at [] i x = []
set_at (y ∷ ys) zero x = x ∷ ys
set_at (y ∷ ys) (suc i) x = y ∷ set_at ys i x

-- The loop that swaps from both ends, on fuel.
unfoldable pub swap_from : ℕ → ℕ → ℕ → List Event → List Event
unfolding set_at
swap_from zero i j events = events
swap_from (suc fuel) i j events =
    let rest =
      swap_from fuel (i + 1) (j - 1)
        (set_at (set_at events i (get_or events j no_event)) j (get_or events i no_event)) in
    if ltb i j then rest else events

-- The index of the last event is -1 for no events, and the loop ends at once there as it does at 0.
unfoldable pub oldest_first : List Event → List Event
unfolding swap_from
oldest_first events = swap_from (length events) 0 (length events - 1) events

pub record TimelineFlags : Type 0 where
  pub since : Text
  pub until : Text
  pub limit : ℤ
  pub pids : List ℤ
  pub uids : List ℤ
  pub categories : List Text
  pub actions : List Text
  pub comms : List Text
  pub path_like : Text
  pub exe_like : Text

pub data TimelineError : Type 0 where
  bad_time : TimeError → TimelineError
  store_error : Error → TimelineError

abbrev pub timed : Result TimeError Time → Result TimelineError Time
timed (ok t) = ok t
timed (err e) = err (bad_time e)

abbrev pub fetched : {A : Type 0} → Result Error A → Result TimelineError A
fetched (ok a) = ok a
fetched (err e) = err (store_error e)

abbrev pub timeline_filter : TimelineFlags → Time → Time → Filter
timeline_filter f since until = record no_filter {
  from = since;
  to = until;
  pids = f.pids;
  uids = f.uids;
  categories = f.categories;
  actions = f.actions;
  comms = f.comms;
  path_like = f.path_like;
  exe_like = f.exe_like;
  limit = f.limit;
}

-- The events that runTimeline prints. `opened` is the result of OpenReadOnly, as its Query.
unfoldable pub run_timeline :
    Clock
    → Time
    → Result Error (Filter → Result Error (List Event))
    → TimelineFlags
    → Result TimelineError (List Event)
unfolding parse_duration_or_time oldest_first
run_timeline c now opened f = do
  query ← fetched opened
  since ← timed (parse_duration_or_time c f.since now)
  until ← timed (parse_duration_or_time c f.until now)
  events ← fetched (query (timeline_filter f since until))
  ok (oldest_first events)
