-- ===== src/Query/Modified.antt =====
-- What the question who modified a path is answered with.
use ltm.Prelude.{
  ℕ, Bool, false, [], ◌∷◌, ◌++◌, Text, codes, map, keep, is_empty, ok, ◌>>=◌, ◌≡◌, refl, sym, ap,
  ◌∙◌, arith, some, append_assoc, List, ◌&&◌, any, true, text_eq, pos,
}
use ltm.Storage.Event.{Event, no_filter}
use ltm.Go.Strings.{is_space, one_of, trim_func, trim_left, trim_right, trim_space}
use ltm.Go.Time.{Time}
use ltm.Query.Words.{ascii_fold, captured, drop_mark, strip_folded, who_modified}
use ltm.Query.Engine.{
  Reader, change_row, execute, is_change, modified_or, path_filter, query_changes,
}
use ltm.Query.Answers.{bind-congr, rows_where-keep}

strip_folded-any_case :
    (w left s : Text) → map ascii_fold left ≡ w → strip_folded w (left ++ s) ≡ some s
unfolding strip_folded
strip_folded-any_case [] [] s h = refl
strip_folded-any_case (x ∷ w) [] s h = absurd (cc h)
strip_folded-any_case [] (c ∷ left) s h = absurd (cc h)
strip_folded-any_case (x ∷ w) (c ∷ left) s h =
    let here : ascii_fold c ≡ x = cc h in
    let later : map ascii_fold left ≡ w = cc h in
    ground (arith, here, strip_folded-any_case w left s later)

is_empty-end : (s : Text) (c : ℕ) → is_empty (s ++ c ∷ []) ≡ false
is_empty-end [] c = refl
is_empty-end (x ∷ s) c = refl

trim_right-kept :
    (p : ℕ → Bool) (s : Text) (c : ℕ) → p c ≡ false → trim_right p (s ++ c ∷ []) ≡ s ++ c ∷ []
unfolding trim_right
trim_right-kept p [] c h = rw h refl
trim_right-kept p (x ∷ s) c h = rw (trim_right-kept p s c h, is_empty-end s c) refl

drop_mark-append : (s : Text) → drop_mark (s ++ b'?' ∷ []) ≡ s
unfolding drop_mark
drop_mark-append [] = refl
drop_mark-append (c ∷ []) = refl
drop_mark-append (c ∷ d ∷ s) = ap (◌∷◌ c) (drop_mark-append (d ∷ s))

one_of-mark : (s : Text) → one_of s 10 ≡ false → one_of (s ++ b'?' ∷ []) 10 ≡ false
unfolding one_of
one_of-mark [] h = refl
one_of-mark (c ∷ s) h = ground (arith, one_of-mark s)

captured-mark :
    (path : Text)
    → is_empty path ≡ false
    → one_of path 10 ≡ false
    → captured (some (path ++ b'?' ∷ [])) ≡ some path
captured-mark [] h k = absurd (cc h)
captured-mark (c ∷ s) h k = rw (one_of-mark (c ∷ s) k, drop_mark-append (c ∷ s)) refl

trim_left-solid : (c : ℕ) (s : Text) → is_space c ≡ false → trim_left is_space (c ∷ s) ≡ c ∷ s
unfolding trim_left
trim_left-solid c s h = rw h refl

trim_space-solid :
    (c : ℕ) (s : Text) → is_space c ≡ false → trim_space (c ∷ s) ≡ trim_right is_space (c ∷ s)
unfolding trim_space trim_func
trim_space-solid c s h = ap (trim_right is_space) (trim_left-solid c s h)

trim_space-question :
    (left rest : Text)
    → map ascii_fold left ≡ codes "who modified "
    → trim_space (left ++ (rest ++ b'?' ∷ [])) ≡ left ++ (rest ++ b'?' ∷ [])
unfolding is_space
trim_space-question [] rest h = absurd (cc h)
trim_space-question (c ∷ left) rest h =
    let first : ascii_fold c ≡ b'w' = cc h in
    let solid : is_space c ≡ false = ground (arith, first) in
    let regrouped : c ∷ left ++ rest ++ b'?' ∷ [] ≡ c ∷ left ++ (rest ++ b'?' ∷ []) =
      append_assoc (c ∷ left) rest (b'?' ∷ []) in
    trim_space-solid c (left ++ (rest ++ b'?' ∷ [])) solid
    ∙ ap (trim_right is_space) (sym regrouped)
    ∙ trim_right-kept is_space (c ∷ left ++ rest) b'?' refl
    ∙ regrouped

who_modified-question :
    (left path : Text)
    → map ascii_fold left ≡ codes "who modified "
    → is_empty path ≡ false
    → one_of path 10 ≡ false
    → who_modified (left ++ (path ++ b'?' ∷ [])) ≡ some path
unfolding who_modified
who_modified-question left path h some_path line =
    ap captured (strip_folded-any_case (codes "who modified ") left (path ++ b'?' ∷ []) h)
    ∙ captured-mark path some_path line

-- A write, rename or unlink of a file.
abbrev pub modifies_file : Event → Bool
modifies_file ev =
    text_eq ev.category (codes "file")
    && any (text_eq ev.action) (codes "write" ∷ codes "rename" ∷ codes "unlink" ∷ [])

is_change-modifies_file : (ev : Event) → is_change ev ≡ modifies_file ev
is_change-modifies_file ev = ground arith

keep-modifies_file : (events : List Event) → keep is_change events ≡ keep modifies_file events
keep-modifies_file [] = refl
keep-modifies_file (ev ∷ events) = rw (is_change-modifies_file ev, keep-modifies_file events) refl

-- The question who modified a path, in letters of any case and with a question mark, asks the store for
-- the first 200 events, in the order of time, whose exact path it is, and for nothing else; it prints
-- the write, rename and unlink events of category file among them, and no others. The path is one line,
-- not empty, and has no white space at its ends.
pub execute-who_modified :
    (rfc3339 : Time → Text) (store : Reader) (left path : Text)
    → map ascii_fold left ≡ codes "who modified "
    → is_empty path ≡ false
    → one_of path 10 ≡ false
    → trim_space path ≡ path
    → execute rfc3339 store (left ++ (path ++ codes "?")) ≡ (do
      events ←
          store.query (record no_filter { exact_path = path; order_asc = true; limit = pos 200 })
      ok (record {
        title = codes "who modified " ++ path;
        rows = map (change_row rfc3339) (keep modifies_file events);
      }))
unfolding execute query_changes
execute-who_modified rfc3339 store left path h some_path line trimmed =
    ap (λ q. modified_or rfc3339 store q (who_modified q)) (trim_space-question left path h)
    ∙ ap (modified_or rfc3339 store (left ++ (path ++ b'?' ∷ [])))
        (who_modified-question left path h some_path line)
    ∙ ap (query_changes rfc3339 store) trimmed
    ∙ bind-congr (store.query (path_filter path)) _ _ (λ events.
      ap (λ rows. ok (record { title = codes "who modified " ++ path; rows = rows }))
        (rows_where-keep is_change (change_row rfc3339) events
          ∙ ap (map (change_row rfc3339)) (keep-modifies_file events)))
