-- ===== src/Abi/Checks.antt =====
-- The tracepoints and the schema that `validate` of internal/abi/gen/main.go accepts.
use ltm.Prelude.{
  ℕ, suc, pos, Bool, true, false, not, ◌&&◌, ◌||◌, List, [], ◌∷◌, Text, Option, none, some,
  is_empty, member, leb_ℤ, if◌then◌else◌, ◌>>=◌, Result, ok, err, ◌≡◌, refl, map, arith, text_eq,
  text_eq_iff,
}
use ltm.Abi.Doc.{
  Tracepoint, TableColumn, TableIndex, Schema, pair_key, check_tracepoints, check_columns,
  check_index_columns, is_nil_list, check_indexes, check_schema,
}

abbrev pub is_ok : {E A : Type 0} → Result E A → Bool
is_ok (ok a) = true
is_ok (err e) = false

abbrev pub result : {E A : Type 0} → Result E A → Option A
result (ok a) = some a
result (err e) = none

abbrev pub all : {A : Type 0} → (A → Bool) → List A → Bool
all p [] = true
all p (x ∷ xs) = p x && all p xs

-- No text stands twice in the list.
abbrev pub distinct : List Text → Bool
distinct [] = true
distinct (x ∷ xs) = not (member x xs) && distinct xs

-- None of the second list's texts stands in the first.
abbrev pub apart : List Text → List Text → Bool
apart seen [] = true
apart seen (x ∷ xs) = not (member x seen) && apart seen xs

abbrev pub reverse_onto : {A : Type 0} → List A → List A → List A
reverse_onto [] acc = acc
reverse_onto (x ∷ xs) acc = reverse_onto xs (x ∷ acc)

text_eq-sym : (s t : Text) → text_eq s t ≡ text_eq t s
text_eq-sym s t = ground (arith, text_eq_iff s t, text_eq_iff t s)

pub apart-cons :
    (x : Text) (seen xs : List Text) → apart (x ∷ seen) xs ≡ (not (member x xs) && apart seen xs)
apart-cons x seen [] = refl
apart-cons x seen (y ∷ ys) = ground (arith, text_eq-sym x y, apart-cons x seen ys)

pub apart-nil : (xs : List Text) → apart [] xs ≡ true
apart-nil [] = refl
apart-nil (x ∷ xs) = apart-nil xs

member-reverse_onto :
    (y : Text) (xs acc : List Text) → member y (reverse_onto xs acc) ≡ (member y xs || member y acc)
member-reverse_onto y [] acc = refl
member-reverse_onto y (x ∷ xs) acc = ground (arith, member-reverse_onto y xs (x ∷ acc))

-- A complete tracepoint.
abbrev pub hooked : Tracepoint → Bool
hooked tp = not (is_empty tp.group) && not (is_empty tp.event) && not (is_empty tp.program)

abbrev pub programs_of : List Tracepoint → List Text
programs_of = map (λ tp. tp.program)

abbrev pub keys_of : List Tracepoint → List Text
keys_of = map pair_key

pub is_ok-check_tracepoints :
    (i : ℕ) (programs pairs : List Text) (tps : List Tracepoint)
    → is_ok (check_tracepoints i programs pairs tps) ≡ (
        all hooked tps
        && (distinct (programs_of tps) && apart programs (programs_of tps))
        && distinct (keys_of tps)
        && apart pairs (keys_of tps))
unfolding check_tracepoints
is_ok-check_tracepoints i programs pairs [] = refl
is_ok-check_tracepoints i programs pairs (tp ∷ tps) = ground (
  arith,
  is_ok-check_tracepoints (suc i) (tp.program ∷ programs) (pair_key tp ∷ pairs) tps,
  apart-cons tp.program programs (programs_of tps),
  apart-cons (pair_key tp) pairs (keys_of tps),
)

abbrev pub names_of : List TableColumn → List Text
names_of = map (λ c. c.name)

abbrev pub typed : TableColumn → Bool
typed c = not (is_empty c.name) && not (is_empty c.type_text)

result-check_columns :
    (seen : List Text) (cs : List TableColumn)
    → result (check_columns seen cs) ≡ (
        if all typed cs && distinct (names_of cs) && apart seen (names_of cs)
        then some (reverse_onto (names_of cs) seen)
        else none)
unfolding check_columns
result-check_columns seen [] = refl
result-check_columns seen (c ∷ cs) =
    ground (arith, result-check_columns (c.name ∷ seen) cs, apart-cons c.name seen (names_of cs))

abbrev pub index_names : List TableIndex → List Text
index_names = map (λ i. i.name)

-- An index with a name and columns, all of them columns of the table.
abbrev pub placed : List Text → TableIndex → Bool
placed names i =
    not (is_empty i.name) && not (is_nil_list i.columns) && all (λ col. member col names) i.columns

is_ok-check_index_columns :
    (cols : List Text) (name : Text) (wanted : List Text)
    → is_ok (check_index_columns cols name wanted) ≡ all (λ col. member col cols) wanted
unfolding check_index_columns
is_ok-check_index_columns cols name [] = refl
is_ok-check_index_columns cols name (col ∷ rest) =
    ground (arith, is_ok-check_index_columns cols name rest)

pub is_ok-then :
    {E A B : Type 0} (r : Result E A) (s : Result E B) → is_ok (do a ← r; s) ≡ (is_ok r && is_ok s)
is_ok-then (ok a) s = refl
is_ok-then (err e) s = refl

is_ok-check_indexes :
    (cols seen : List Text) (indexes : List TableIndex)
    → is_ok (check_indexes cols seen indexes) ≡ (
        all (placed cols) indexes
        && distinct (index_names indexes)
        && apart seen (index_names indexes))
unfolding check_indexes
is_ok-check_indexes cols seen [] = refl
is_ok-check_indexes cols seen (i ∷ rest) = ground (
  arith,
  is_ok-then (check_index_columns cols i.name i.columns) (check_indexes cols (i.name ∷ seen) rest),
  is_ok-check_index_columns cols i.name i.columns,
  is_ok-check_indexes cols (i.name ∷ seen) rest,
  apart-cons i.name seen (index_names rest),
)

all-congr :
    {A : Type 0} (p q : A → Bool) (xs : List A) → ((x : A) → p x ≡ q x) → all p xs ≡ all q xs
all-congr p q [] h = refl
all-congr p q (x ∷ xs) h = ground (arith, h x, all-congr p q xs h)

abbrev pub sound_schema : Schema → Bool
sound_schema s =
    not (leb_ℤ s.version (pos 0))
    && not (is_empty s.table)
    && not (is_nil_list s.columns)
    && (all typed s.columns && distinct (names_of s.columns))
    && all (placed (names_of s.columns)) s.indexes
    && distinct (index_names s.indexes)

placed-reverse_onto :
    (names : List Text) (i : TableIndex) → placed (reverse_onto names []) i ≡ placed names i
placed-reverse_onto names i = ground (
  arith,
  all-congr (λ col. member col (reverse_onto names [])) (λ col. member col names) i.columns
      (λ col. ground (arith, member-reverse_onto col names [])),
)

pub is_ok-bind :
    {E A B : Type 0} (r : Result E A) (f : A → Result E B) (good : Bool) (a : A)
    → result r ≡ (if good then some a else none)
    → is_ok (r >>= f) ≡ (good && is_ok (f a))
is_ok-bind (ok x) f good a h = ground arith
is_ok-bind (err e) f good a h = ground arith

pub is_ok-check_schema : (s : Schema) → is_ok (check_schema s) ≡ sound_schema s
unfolding check_schema
is_ok-check_schema s = ground (
  arith,
  is_ok-bind (check_columns [] s.columns) (λ cols. check_indexes cols [] s.indexes)
      (all typed s.columns && distinct (names_of s.columns) && apart [] (names_of s.columns))
      (reverse_onto (names_of s.columns) []) (result-check_columns [] s.columns),
  apart-nil (names_of s.columns),
  is_ok-check_indexes (reverse_onto (names_of s.columns) []) [] s.indexes,
  apart-nil (index_names s.indexes),
  all-congr (placed (reverse_onto (names_of s.columns) [])) (placed (names_of s.columns)) s.indexes
      (placed-reverse_onto (names_of s.columns)),
)
