-- ===== src/Storage/Select/Marks.antt =====
-- The statement's placeholders and its arguments.
use ltm.Prelude.{
  ℕ, zero, suc, ◌+◌, ◌≡◌, refl, Bool, true, false, List, [], ◌∷◌, ◌++◌, map, Text, codes, length,
  length-append, length-map, ◌==◌, if◌then◌else◌, arith, sym, ap, text_eq,
}
use ltm.Go.Strings.{join, repeat, trim_suffix}
use ltm.Storage.Event.{Filter}
use ltm.Storage.Select.{
  Arg, int, text, Column, pid, uid, category, action, comm, Clause, ts_ge, ts_le, path_like,
  exe_like, exact_path, is_in, column_name, placeholders, clause_text, Parts, add_if, query_parts,
  where_text, order_text, select_text, query_text, query_args, effective_limit, event_columns,
}

-- The number of `?` in a text.
unfoldable pub marks : Text → ℕ
marks [] = 0
marks (c ∷ s) = if c == b'?' then suc (marks s) else marks s

pub marks-append : (s t : Text) → marks (s ++ t) ≡ marks s + marks t
unfolding marks
marks-append [] t = omega arith
marks-append (c ∷ s) t = ground (arith, marks-append s t)

-- How many arguments a condition takes.
abbrev pub arity : Clause → ℕ
arity ts_ge = 1
arity ts_le = 1
arity path_like = 2
arity exe_like = 1
arity exact_path = 2
arity (is_in c n) = n

-- `?,?,…,?` with n marks, from the repetition that the code trims.
listed : ℕ → Text
listed zero = []
listed (suc zero) = codes "?"
listed (suc (suc n)) = codes "?," ++ listed (suc n)

trim_suffix-repeat : (n : ℕ) → trim_suffix (repeat (codes "?,") n) (codes ",") ≡ listed n
unfolding trim_suffix repeat listed text_eq
trim_suffix-repeat zero = refl
trim_suffix-repeat (suc zero) = refl
trim_suffix-repeat (suc (suc n)) = ap (λ t. b'?' ∷ b',' ∷ t) (trim_suffix-repeat (suc n))

marks-listed : (n : ℕ) → marks (listed n) ≡ n
unfolding marks listed
marks-listed zero = refl
marks-listed (suc zero) = refl
marks-listed (suc (suc n)) = ap suc (marks-listed (suc n))

marks-column_name : (c : Column) → marks (column_name c) ≡ 0
unfolding marks
marks-column_name pid = refl
marks-column_name uid = refl
marks-column_name category = refl
marks-column_name action = refl
marks-column_name comm = refl

marks_in : marks (codes " IN (") ≡ 0
unfolding marks
marks_in = refl

marks_close : marks (codes ")") ≡ 0
unfolding marks
marks_close = refl

marks-clause_text : (c : Clause) → marks (clause_text c) ≡ arity c
unfolding clause_text placeholders
marks-clause_text ts_ge = unfold marks in refl
marks-clause_text ts_le = unfold marks in refl
marks-clause_text path_like = unfold marks in refl
marks-clause_text exe_like = unfold marks in refl
marks-clause_text exact_path = unfold marks in refl
marks-clause_text (is_in c n) = omega (
  arith,
  marks-append (column_name c ++ codes " IN (" ++ placeholders n) (codes ")"),
  marks-append (column_name c ++ codes " IN (") (placeholders n),
  marks-append (column_name c) (codes " IN ("),
  marks-column_name c,
  marks_in,
  marks_close,
  ap marks (trim_suffix-repeat n),
  marks-listed n,
)

-- The arguments that a list of conditions takes.
abbrev pub arities : List Clause → ℕ
arities [] = 0
arities (c ∷ cs) = arity c + arities cs

pub arities-append : (cs ds : List Clause) → arities (cs ++ ds) ≡ arities cs + arities ds
arities-append [] ds = omega arith
arities-append (c ∷ cs) ds = omega (arith, arities-append cs ds)

marks_and : marks (codes " AND ") ≡ 0
unfolding marks
marks_and = refl

marks-join : (cs : List Clause) → marks (join (map clause_text cs) (codes " AND ")) ≡ arities cs
unfolding join
marks-join [] = unfold marks in refl
marks-join (c ∷ []) = omega (arith, marks-clause_text c)
marks-join (c ∷ d ∷ cs) =
    let rest = join (map clause_text (d ∷ cs)) (codes " AND ") in
    omega (
      arith,
      marks-append (clause_text c ++ codes " AND ") rest,
      marks-append (clause_text c) (codes " AND "),
      marks_and,
      marks-clause_text c,
      marks-join (d ∷ cs),
    )

marks_where : marks (codes " WHERE ") ≡ 0
unfolding marks
marks_where = refl

marks-where_text : (cs : List Clause) → marks (where_text cs) ≡ arities cs
marks-where_text [] = unfold marks in refl
marks-where_text (c ∷ cs) = omega (
  arith,
  marks-append (codes " WHERE ") (join (map clause_text (c ∷ cs)) (codes " AND ")),
  marks_where,
  marks-join (c ∷ cs),
)

marks-order_text : (asc : Bool) → marks (order_text asc) ≡ 1
unfolding marks
marks-order_text true = refl
marks-order_text false = refl

-- Conditions and arguments in step.
abbrev pub IsBalanced : Parts → Type 0
IsBalanced p = arities p.clauses ≡ length p.args

pub add_if-IsBalanced :
    (test : Bool) (c : Clause) (values : List Arg) (p : Parts)
    → arity c ≡ length values
    → IsBalanced p
    → IsBalanced (add_if test c values p)
unfolding add_if
add_if-IsBalanced false c values p e h = h
add_if-IsBalanced true c values p e h =
    omega (arith, arities-append p.clauses (c ∷ []), length-append p.args values)

pub length-of_map {ℓ κ} :
    {A : Type ℓ} {B : Type κ} (f : A → B) (xs : List A) → length xs ≡ length (map f xs)
length-of_map f xs = sym (length-map f xs)

pub query_parts-IsBalanced : (f : Filter) → IsBalanced (query_parts f)
unfolding query_parts
query_parts-IsBalanced f = add_if-IsBalanced _ exact_path _ _ refl (
    add_if-IsBalanced _ exe_like _ _ refl (
      add_if-IsBalanced _ path_like _ _ refl (
        add_if-IsBalanced _ (is_in comm _) _ _ (length-of_map text f.comms) (
          add_if-IsBalanced _ (is_in action _) _ _ (length-of_map text f.actions) (
            add_if-IsBalanced _ (is_in category _) _ _ (length-of_map text f.categories) (
              add_if-IsBalanced _ (is_in uid _) _ _ (length-of_map int f.uids) (
                add_if-IsBalanced _ (is_in pid _) _ _ (length-of_map int f.pids) (
                  add_if-IsBalanced _ ts_le _ _ refl
                    (add_if-IsBalanced _ ts_ge _ _ refl refl)))))))))

marks_select : marks (codes "SELECT ") ≡ 0
unfolding marks
marks_select = refl

pub marks-event_columns : marks event_columns ≡ 0
unfolding marks
marks-event_columns = refl

marks_from : marks (codes " FROM events") ≡ 0
unfolding marks
marks_from = refl

marks-select_text : (cs : List Clause) (asc : Bool) → marks (select_text cs asc) ≡ arities cs + 1
unfolding select_text
marks-select_text cs asc =
    let tail = where_text cs ++ order_text asc in
    omega (
      arith,
      marks-append (codes "SELECT ") (event_columns ++ (codes " FROM events" ++ tail)),
      marks-append event_columns (codes " FROM events" ++ tail),
      marks-append (codes " FROM events") tail,
      marks-append (where_text cs) (order_text asc),
      marks_select,
      marks-event_columns,
      marks_from,
      marks-where_text cs,
      marks-order_text asc,
    )

-- Every filter gives a statement with exactly as many `?` as there are arguments.
pub marks-query_text : (f : Filter) → marks (query_text f) ≡ length (query_args f)
unfolding query_text query_args
marks-query_text f = omega (
  arith,
  marks-select_text (query_parts f).clauses f.order_asc,
  query_parts-IsBalanced f,
  length-append (query_parts f).args (int (effective_limit f.limit) ∷ []),
)
