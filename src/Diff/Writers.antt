-- ===== src/Diff/Writers.antt =====
-- Hot writers: the paths that at least three write events name.
use mathlib.Core.Path.{subst}
use ltm.Prelude.{
  ℕ, ◌≡◌, refl, sym, ap, ◌∙◌, Bool, false, not, ◌&&◌, List, [], ◌∷◌, ◌++◌, Text, codes, map, keep,
  is_empty, text_eq, text_eq_iff, none, some, length, leb, append-nil, arith, if◌then◌else◌,
  Bool-cases, inl, inr,
}
use ltm.Go.Time.{Time}
use ltm.Storage.Event.{Event}
use ltm.Diff.Actions.{is_kind, of_kind}
use ltm.Diff.Lists.{start_keeps, scan_events-collects, modifies}
use ltm.Diff.Report.{
  Kind, started, exited, modified, kind_of, Scan, HotWriter, modified_path, lookup, store, or_nil,
  add_exit, add_modified, scan_kind, scan_events, hot_writers_of, scan_all, report_of,
}

-- The event is a write to the path, by the path's name or, if that is blank, by the old one.
unfoldable pub writes_to : Text → Event → Bool
writes_to path ev =
    modifies ev && text_eq ev.action (codes "write") && text_eq (modified_path ev) path

lookup-store {ℓ} :
    {V : Type ℓ} (k j : Text) (v : V) (m : List (Text × V))
    → lookup j (store k v m) ≡ (if text_eq k j then some v else lookup j m)
unfolding lookup store
lookup-store k j v [] = refl
lookup-store k j v ((i, w) ∷ m) =
    ground (arith, text_eq_iff i k, text_eq_iff i j, text_eq_iff k j, lookup-store k j v m)

writes_of : Text → Scan → List Event
writes_of path s = or_nil (lookup path s.writes)

add_modified_writes :
    (path : Text) (s : Scan) (ev : Event)
    → writes_of path (add_modified ev s)
      ≡ writes_of path s
        ++ (if not (is_empty (modified_path ev))
              && text_eq ev.action (codes "write")
              && text_eq (modified_path ev) path
            then ev ∷ []
            else [])
unfolding writes_of add_modified
add_modified_writes path s ev = ground (
  arith,
  append-nil (or_nil (lookup path s.writes)),
  text_eq_iff (modified_path ev) path,
  lookup-store (modified_path ev) path (or_nil (lookup (modified_path ev) s.writes) ++ ev ∷ [])
      s.writes,
)

writes_round :
    (path : Text) (s : Scan) (ev : Event)
    → writes_of path (scan_kind (kind_of ev) ev s)
      ≡ writes_of path s ++ (if writes_to path ev then ev ∷ [] else [])
unfolding writes_to modifies of_kind
writes_round path s ev = by_kind (kind_of ev)
  where
    by_kind :
        (k : Kind)
        → writes_of path (scan_kind k ev s)
          ≡ writes_of path s
            ++ (if (is_kind k modified && not (is_empty (modified_path ev)))
                  && text_eq ev.action (codes "write")
                  && text_eq (modified_path ev) path
                then ev ∷ []
                else [])
    by_kind started =
        unfold scan_kind is_kind writes_of in
        ap (λ m. or_nil (lookup path m)) (start_keeps ev s).5 ∙ sym (append-nil _)
    by_kind modified = unfold scan_kind is_kind in add_modified_writes path s ev
    by_kind exited = unfold scan_kind is_kind writes_of add_exit in sym (append-nil _)
    by_kind _ = unfold scan_kind is_kind writes_of in sym (append-nil _)

map_id {ℓ} : {A : Type ℓ} (xs : List A) → map (λ x. x) xs ≡ xs
map_id [] = refl
map_id (x ∷ xs) = ap (◌∷◌ x) (map_id xs)

writes_of-scan_all :
    (path : Text) (from to : Time) (events : List Event)
    → writes_of path (scan_all from to events) ≡ keep (writes_to path) events
unfolding scan_all
writes_of-scan_all path from to events =
    scan_events-collects (writes_of path) (writes_to path) (λ ev. ev) (writes_round path) _ events
    ∙ unfold writes_of lookup in map_id (keep (writes_to path) events)

-- No key stands twice.
abbrev IsDistinct {ℓ} : {V : Type ℓ} → List (Text × V) → Type ℓ
IsDistinct [] = Unit
IsDistinct ((k, v) ∷ m) = (lookup k m ≡ none) × IsDistinct m

lookup-store_ne {ℓ} :
    {V : Type ℓ} (k j : Text) (v : V) (m : List (Text × V))
    → text_eq j k ≡ false
    → lookup j (store k v m) ≡ lookup j m
lookup-store_ne k j v m h = ground (arith, lookup-store k j v m, text_eq_iff j k, text_eq_iff k j)

store-IsDistinct {ℓ} :
    {V : Type ℓ} (k : Text) (v : V) (m : List (Text × V)) → IsDistinct m → IsDistinct (store k v m)
unfolding store
store-IsDistinct k v [] h = (unfold lookup in refl, tt)
store-IsDistinct k v ((j, w) ∷ m) (fresh, h) = elim (Bool-cases (text_eq j k)) [
  | inl e ↦ rw e (fresh, h)
  | inr e ↦ rw e (lookup-store_ne k j v m e ∙ fresh, store-IsDistinct k v m h)
]

-- The count of the first hot writer at a path.
unfoldable pub hot_count : Text → List HotWriter → ℕ
hot_count path [] = 0
hot_count path (hw ∷ rest) = if text_eq hw.path path then hw.count else hot_count path rest

-- A count that is listed.
abbrev pub hot : ℕ → ℕ
hot n = if leb 3 n then n else 0

hot_count_absent :
    (path : Text) (m : List (Text × List Event))
    → lookup path m ≡ none
    → hot_count path (hot_writers_of m) ≡ 0
unfolding hot_count hot_writers_of lookup
hot_count_absent path [] h = refl
hot_count_absent path ((k, []) ∷ m) h = ground (arith, hot_count_absent path m)
hot_count_absent path ((k, ev ∷ evs) ∷ m) h = ground (arith, hot_count_absent path m)

hot_count-lookup :
    (path : Text) (m : List (Text × List Event))
    → IsDistinct m
    → hot_count path (hot_writers_of m) ≡ hot (length (or_nil (lookup path m)))
unfolding hot_count hot_writers_of lookup
hot_count-lookup path [] h = refl
hot_count-lookup path ((k, []) ∷ m) (fresh, h) =
    ground (arith, hot_count-lookup path m h, hot_count_absent path m, text_eq_iff k path)
hot_count-lookup path ((k, ev ∷ evs) ∷ m) (fresh, h) =
    ground (arith, hot_count-lookup path m h, hot_count_absent path m, text_eq_iff k path)

scan_kind-IsDistinct :
    (k : Kind) (s : Scan) (ev : Event) → IsDistinct s.writes → IsDistinct (scan_kind k ev s).writes
unfolding scan_kind add_exit
scan_kind-IsDistinct started s ev h = subst IsDistinct (sym (start_keeps ev s).5) h
scan_kind-IsDistinct modified s ev h =
    unfold add_modified in
    elim (Bool-cases (is_empty (modified_path ev))) [
      | inl e ↦ rw e h
      | inr e ↦ elim (Bool-cases (text_eq ev.action (codes "write"))) [
        | inl f ↦ rw (e, f) (store-IsDistinct (modified_path ev) _ s.writes h)
        | inr f ↦ rw (e, f) h
      ]
    ]
scan_kind-IsDistinct _ s ev h = h

scan_events-IsDistinct :
    (s : Scan) (events : List Event)
    → IsDistinct s.writes
    → IsDistinct (scan_events s events).writes
unfolding scan_events
scan_events-IsDistinct s [] h = h
scan_events-IsDistinct s (ev ∷ events) h =
    scan_events-IsDistinct (scan_kind (kind_of ev) ev s) events
      (scan_kind-IsDistinct (kind_of ev) s ev h)

-- The first hot writer at a path counts the write events that name the path, where at least three
-- do. Where fewer do, the path is not listed, or is listed with a count of 0.
pub hot_count-report_of :
    (path : Text) (from to : Time) (events : List Event)
    → hot_count path (report_of from to events).hot_writers
      ≡ hot (length (keep (writes_to path) events))
unfolding report_of
hot_count-report_of path from to events =
    hot_count-lookup path (scan_all from to events).writes
      (unfold scan_all in scan_events-IsDistinct _ events tt)
    ∙ unfold writes_of in ap (λ xs. hot (length xs)) (writes_of-scan_all path from to events)
