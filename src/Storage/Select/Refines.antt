-- ===== src/Storage/Select/Refines.antt =====
-- The statement of a filter selects the rows that the filter describes.
use mathlib.Core.Path.{ap₂}
use ltm.Prelude.{
  append-nil, ℕ, ◌<◌, ◌≡◌, refl, sym, ap, ◌∙◌, inl, inr, Bool-cases, ℤ, Bool, true, false, not,
  ◌&&◌, ◌||◌, List, [], ◌∷◌, ◌++◌, map, Text, length, length-drop, drop, take-append, drop-append,
  take_all, text_eq, eq_ℤ, is_empty, leb, member, any, arith,
}
use ltm.Go.Time.{Time, is_zero, unix_nano, unix, InRange, ltb_64, two_64}
use ltm.Storage.Event.{Filter}
use ltm.Storage.Select.Marks.{arity, arities, IsBalanced, add_if-IsBalanced, length-of_map}
use ltm.Storage.Select.Meaning.{Row, holds, all_hold, is_among}
use ltm.Storage.Select.{
  Arg, int64, int, text, Clause, ts_ge, ts_le, path_like, exe_like, exact_path, is_in, comm, action,
  category, uid, pid, Parts, add_if, query_parts, query_args, is_nil, effective_limit,
}

module _ (like : Text → Text → Bool) (r : Row) where
  all_hold-append :
      (cs ds : List Clause) (xs bs : List Arg)
      → arities cs ≡ length xs
      → all_hold like (cs ++ ds) (xs ++ bs) r ≡ (all_hold like cs xs r && all_hold like ds bs r)
  unfolding all_hold
  all_hold-append [] ds [] bs h = refl
  all_hold-append [] ds (a ∷ xs) bs h = absurd (omega arith)
  all_hold-append (c ∷ cs) ds xs bs h = ground (
    arith,
    take-append (arity c) xs bs,
    drop-append (arity c) xs bs,
    all_hold-append cs ds (drop (arity c) xs) bs,
    length-drop (arity c) xs,
  )

  all_hold-single :
      (c : Clause) (values : List Arg)
      → arity c ≡ length values
      → all_hold like (c ∷ []) values r ≡ holds like c values r
  unfolding all_hold
  all_hold-single c values h = ground (arith, take_all (arity c) values)

  -- One block of the code: a condition that is added restricts, and one that is not does nothing.
  all_hold-add_if :
      (test : Bool) (c : Clause) (values : List Arg) (p : Parts)
      → IsBalanced p
      → arity c ≡ length values
      → all_hold like (add_if test c values p).clauses (add_if test c values p).args r
        ≡ (all_hold like p.clauses p.args r && (not test || holds like c values r))
  unfolding add_if
  all_hold-add_if false c values p h e = ground arith
  all_hold-add_if true c values p h e =
      all_hold-append p.clauses (c ∷ []) p.args values h
      ∙ ap (λ (b : Bool). all_hold like p.clauses p.args r && b) (all_hold-single c values e)

-- What a filter says of a row, by its own fields. Times are compared as times.
unfoldable pub describes : (Text → Text → Bool) → Filter → Row → Bool
describes like f r =
    ((((((((((is_zero f.from || leb f.from (unix r.ts)) && (is_zero f.to || leb (unix r.ts) f.to))
                    && (is_nil f.pids || any (λ p. eq_ℤ p r.pid) f.pids))
                  && (is_nil f.uids || any (λ u. eq_ℤ u r.uid) f.uids))
                && (is_nil f.categories || member r.category f.categories))
              && (is_nil f.actions || member r.action f.actions))
            && (is_nil f.comms || member r.comm f.comms))
          && (is_empty f.path_like || (like f.path_like r.path || like f.path_like r.old_path)))
        && (is_empty f.exe_like || like f.exe_like r.exe))
      && (is_empty f.exact_path
          || (text_eq r.path f.exact_path || text_eq r.old_path f.exact_path)))

-- The times that a filter names have a UnixNano.
pub record TimesInRange (f : Filter) : Type 0 where
  pub from_in_range : is_zero f.from ≡ false → InRange f.from
  pub to_in_range : is_zero f.to ≡ false → InRange f.to

is_among-ints : (x : ℤ) (xs : List ℤ) → is_among (int x) (map int xs) ≡ any (λ p. eq_ℤ p x) xs
is_among-ints x [] = refl
is_among-ints x (y ∷ xs) = ap (λ (b : Bool). eq_ℤ y x || b) (is_among-ints x xs)

is_among-texts : (s : Text) (ts : List Text) → is_among (text s) (map text ts) ≡ member s ts
is_among-texts s [] = refl
is_among-texts s (t ∷ ts) = ap (λ (b : Bool). text_eq t s || b) (is_among-texts s ts)

ts_ge_time :
    (ts : ℕ) (t : Time) → ts < two_64 → InRange t → not (ltb_64 ts (unix_nano t)) ≡ leb t (unix ts)
unfolding unix unix_nano
ts_ge_time ts t h e = ground arith

ts_le_time :
    (ts : ℕ) (t : Time) → ts < two_64 → InRange t → not (ltb_64 (unix_nano t) ts) ≡ leb (unix ts) t
unfolding unix unix_nano
ts_le_time ts t h e = ground arith

module _ (like : Text → Text → Bool) (f : Filter) (r : Row) (stored : r.ts < two_64) where
  holds-from :
      TimesInRange f
      → (not (not (is_zero f.from)) || holds like ts_ge (int64 (unix_nano f.from) ∷ []) r)
        ≡ (is_zero f.from || leb f.from (unix r.ts))
  unfolding holds
  holds-from t = elim (Bool-cases (is_zero f.from)) [
    | inl e ↦ rw e
    | inr e ↦ rw e (ts_ge_time r.ts f.from stored (t.from_in_range e))
  ]

  holds-to :
      TimesInRange f
      → (not (not (is_zero f.to)) || holds like ts_le (int64 (unix_nano f.to) ∷ []) r)
        ≡ (is_zero f.to || leb (unix r.ts) f.to)
  unfolding holds
  holds-to t = elim (Bool-cases (is_zero f.to)) [
    | inl e ↦ rw e
    | inr e ↦ rw e (ts_le_time r.ts f.to stored (t.to_in_range e))
  ]

  -- The parts so far hold of the row just in case `b`.
  record Meets (p : Parts) (b : Bool) : Type 0 where
    balanced : IsBalanced p
    meaning : all_hold like p.clauses p.args r ≡ b

  add_if-Meets :
      (z : Bool) (c : Clause) (values : List Arg) (p : Parts) {b g : Bool}
      → arity c ≡ length values
      → (not (not z) || holds like c values r) ≡ g
      → Meets p b
      → Meets (add_if (not z) c values p) (b && g)
  add_if-Meets z c values p e m h = record {
    balanced = add_if-IsBalanced (not z) c values p e h.balanced;
    meaning = all_hold-add_if like r (not z) c values p h.balanced e ∙ ap₂ (◌&&◌) h.meaning m;
  }

  and-true : (b : Bool) → (b && true) ≡ b
  and-true b = ground arith

  guarded : (z : Bool) {b g : Bool} → b ≡ g → (not (not z) || b) ≡ (z || g)
  guarded z e = ground arith

  query_parts-Meets : TimesInRange f → Meets (query_parts f) (describes like f r)
  unfolding query_parts describes holds all_hold
  query_parts-Meets t =
      add_if-Meets _ exact_path _ _ refl
        (guarded (is_empty f.exact_path)
          {b = text_eq r.path f.exact_path || text_eq r.old_path f.exact_path} refl)
        (add_if-Meets _ exe_like _ _ refl
          (guarded (is_empty f.exe_like) {b = like f.exe_like r.exe} refl)
          (add_if-Meets _ path_like _ _ refl
            (guarded (is_empty f.path_like)
              {b = like f.path_like r.path || like f.path_like r.old_path} refl)
            (add_if-Meets _ (is_in comm _) _ _ (length-of_map text f.comms)
              (guarded _ (is_among-texts r.comm f.comms))
              (add_if-Meets _ (is_in action _) _ _ (length-of_map text f.actions)
                (guarded _ (is_among-texts r.action f.actions))
                (add_if-Meets _ (is_in category _) _ _ (length-of_map text f.categories)
                  (guarded _ (is_among-texts r.category f.categories))
                  (add_if-Meets _ (is_in uid _) _ _ (length-of_map int f.uids)
                    (guarded _ (is_among-ints r.uid f.uids))
                    (add_if-Meets _ (is_in pid _) _ _ (length-of_map int f.pids)
                      (guarded _ (is_among-ints r.pid f.pids))
                      (add_if-Meets _ ts_le _ _ refl (holds-to t) (
                        add_if-Meets _ ts_ge _ _ refl (holds-from t)
                          (record { balanced = refl; meaning = refl }))))))))))

  -- The conditions and arguments of a filter hold of exactly the rows that it describes, also with
  -- the limit behind the arguments.
  pub query_args-describes :
      TimesInRange f → all_hold like (query_parts f).clauses (query_args f) r ≡ describes like f r
  unfolding query_args all_hold
  query_args-describes t =
      let m = query_parts-Meets t in
      ap (λ cs. all_hold like cs (query_args f) r) (sym (append-nil (query_parts f).clauses))
      ∙ all_hold-append like r (query_parts f).clauses [] (query_parts f).args
          (int (effective_limit f.limit) ∷ []) m.balanced
      ∙ and-true _
      ∙ m.meaning
