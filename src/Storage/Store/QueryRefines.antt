-- ===== src/Storage/Store/QueryRefines.antt =====
-- Query returns the events of the rows that its filter describes.
use ltm.Prelude.{
  ℕ, zero, suc, ◌<◌, ◌≡◌, refl, ap, ◌∙◌, ℤ, pos, negsuc, Bool, List, [], ◌∷◌, ◌++◌, Text, Option,
  length, take, drop, keep, All, arith, ok,
}
use ltm.Go.Time.{two_64}
use ltm.Storage.Event.{Filter, validate}
use ltm.Storage.Select.Marks.{arities, query_parts-IsBalanced}
use ltm.Storage.Select.Meaning.{Row, all_hold, order_rows, limited, select_rows}
use ltm.Storage.Select.Refines.{describes, TimesInRange, query_args-describes}
use ltm.Storage.Select.{Arg, int, query_parts, query_text, query_args, effective_limit}
use ltm.Storage.Store.{Rows, Metadata, scan_events, query_events, query}

keep-ext :
    (p q : Row → Bool) (rows : List Row) → All (λ r. p r ≡ q r) rows → keep p rows ≡ keep q rows
keep-ext p q [] h = refl
keep-ext p q (r ∷ rows) (e, h) = ground (arith, keep-ext p q rows h)

All-map : {P Q : Row → Type 0} (rows : List Row) → ((r : Row) → P r → Q r) → All P rows → All Q rows
All-map [] f h = tt
All-map (r ∷ rows) f (p, h) = (f r p, All-map rows f h)

-- The limit of a query, as a number of rows.
abbrev pub rows_wanted : ℤ → ℕ
rows_wanted (pos zero) = 200
rows_wanted (pos (suc n)) = suc n
rows_wanted (negsuc n) = 200

effective_limit-pos : (limit : ℤ) → effective_limit limit ≡ pos (rows_wanted limit)
unfolding effective_limit
effective_limit-pos (pos zero) = refl
effective_limit-pos (pos (suc n)) = ground arith
effective_limit-pos (negsuc n) = ground arith

limited-effective :
    (limit : ℤ) (rows : List Row)
    → limited (int (effective_limit limit) ∷ []) rows ≡ take (rows_wanted limit) rows
unfolding limited
limited-effective limit rows = ap (λ (n : ℤ). limited (int n ∷ []) rows) (effective_limit-pos limit)

drop_own : (n : ℕ) (xs ys : List Arg) → n ≡ length xs → drop n (xs ++ ys) ≡ ys
drop_own zero [] ys h = refl
drop_own zero (x ∷ xs) ys h = absurd (omega arith)
drop_own (suc n) [] ys h = absurd (omega arith)
drop_own (suc n) (x ∷ xs) ys h = drop_own n xs ys (omega arith)

module _ (like : Text → Text → Bool) (f : Filter) (rows : List Row) where
  -- The rows that the filter describes, in its order, at most as many as it wants.
  abbrev pub wanted : List Row
  wanted = take (rows_wanted f.limit) (order_rows f.order_asc (keep (describes like f) rows))

  select_rows-wanted :
      TimesInRange f
      → All (λ r. r.ts < two_64) rows
      → select_rows like (query_parts f).clauses f.order_asc (query_args f) rows ≡ wanted
  unfolding select_rows query_args
  select_rows-wanted t stored =
      ap
        (λ (xs : List Arg). limited xs (
          order_rows f.order_asc
            (keep (all_hold like (query_parts f).clauses (query_args f)) rows)))
        (drop_own (arities (query_parts f).clauses) (query_parts f).args
          (int (effective_limit f.limit) ∷ []) (query_parts-IsBalanced f))
      ∙ limited-effective f.limit _
      ∙ ap (λ (kept : List Row). take (rows_wanted f.limit) (order_rows f.order_asc kept))
          (keep-ext (all_hold like (query_parts f).clauses (query_args f)) (describes like f) rows
            (All-map rows (λ r h. query_args-describes like f r h t) stored))

  -- If the driver runs the statement of a valid filter by its documented meaning over rows whose ts
  -- is an int64, then Query scans exactly the rows that the filter describes: those between its
  -- times, in each of its lists, and matching its patterns, in its order, up to its limit or 200.
  pub query-wanted :
      (unmarshal : Text → Option Metadata) (db : Rows)
      → validate f ≡ ok tt
      → TimesInRange f
      → All (λ r. r.ts < two_64) rows
      → db (query_text f) (query_args f)
        ≡ ok (select_rows like (query_parts f).clauses f.order_asc (query_args f) rows)
      → query unmarshal db f ≡ scan_events unmarshal wanted
  unfolding query query_events
  query-wanted unmarshal db valid t stored answers =
      rw (valid, answers) (ap (scan_events unmarshal) (select_rows-wanted t stored))
