-- ===== src/Cli/Timeline/Reversed.antt =====
-- That the loop at the end of runTimeline reverses the events.
use ltm.Prelude.{ℕ, List, [], ◌∷◌, ◌++◌, get_or}
use ltm.Storage.Event.{Event, no_event}
use ltm.Cli.Timeline.{set_at}

-- The reference: the events, the last one first.
abbrev pub reversed : List Event → List Event
reversed [] = []
reversed (x ∷ xs) = reversed xs ++ x ∷ []

-- A list is empty, has one item, or has two ends.
data Ends : List Event → Type 0 where
  none_left : Ends []
  one_left : (x : Event) → Ends (x ∷ [])
  two_ends : (x : Event) (m : List Event) (y : Event) → Ends (x ∷ (m ++ y ∷ []))

-- One swap of the ends of the middle part.
abbrev swapped : List Event → ℕ → ℕ → List Event
swapped events i j =
    set_at (set_at events i (get_or events j no_event)) j (get_or events i no_event)
