-- ===== src/Abi/Accepts.antt =====
-- The kernel layout and the documents that `validate` of internal/abi/gen/main.go accepts.
use ltm.Prelude.{
  ℤ, pos, Bool, true, false, not, ◌&&◌, ◌||◌, List, [], ◌∷◌, Text, Option, none, some, is_empty,
  member, leb_ℤ, if◌then◌else◌, ◌≡◌, refl, map, arith, ◌>>=◌,
}
use ltm.Diff.Report.{lookup}
use ltm.Go.Numbers.{atoi}
use ltm.Abi.Doc.{
  KernelConst, KernelField, KernelLayout, AbiDoc, is_nil_list, check_constants, check_literal,
  check_resolved, check_count, check_fields, check_layout, validate_doc, check_tracepoints,
  check_schema,
}
use ltm.Abi.Checks.{
  is_ok, result, all, distinct, apart, reverse_onto, hooked, programs_of, keys_of, sound_schema,
  apart-cons, apart-nil, is_ok-check_tracepoints, is_ok-bind, is_ok-check_schema, is_ok-then,
}

abbrev pairs_of : List KernelConst → List (Text × ℤ)
pairs_of = map (λ c. (c.name, c.value))

abbrev const_names : List KernelConst → List Text
const_names = map (λ c. c.name)

abbrev firsts : List (Text × ℤ) → List Text
firsts = map (λ p. p.0)

abbrev titled : KernelConst → Bool
titled c = not (is_empty c.name)

abbrev absent : Option ℤ → Bool
absent none = true
absent (some v) = false

absent-lookup :
    (k : Text) (table : List (Text × ℤ)) → absent (lookup k table) ≡ not (member k (firsts table))
unfolding lookup
absent-lookup k [] = refl
absent-lookup k (p ∷ ps) = ground (arith, absent-lookup k ps)

result-check_constants :
    (table : List (Text × ℤ)) (cs : List KernelConst)
    → result (check_constants table cs) ≡ (
        if all titled cs && distinct (const_names cs) && apart (firsts table) (const_names cs)
        then some (reverse_onto (pairs_of cs) table)
        else none)
unfolding check_constants
result-check_constants table [] = refl
result-check_constants table (c ∷ cs) = ground (
  arith,
  result-check_constants ((c.name, c.value) ∷ table) cs,
  apart-cons c.name (firsts table) (const_names cs),
  absent-lookup c.name table,
)

abbrev positive : Option ℤ → Bool
positive none = false
positive (some n) = not (leb_ℤ n (pos 0))

-- The size that a count stands for: the constant of that name, else the literal.
abbrev size_of : List (Text × ℤ) → Text → Option ℤ
size_of consts count = elim (lookup count consts) [ some v ↦ some v | none ↦ atoi count ]

abbrev sized : List (Text × ℤ) → KernelField → Bool
sized consts f = is_empty f.count || positive (size_of consts f.count)

abbrev field_names : List KernelField → List Text
field_names = map (λ f. f.name)

abbrev laid_out : List (Text × ℤ) → KernelField → Bool
laid_out consts f = not (is_empty f.name) && not (is_empty f.type_text) && sized consts f

is_ok-check_literal : (f : KernelField) (n : Option ℤ) → is_ok (check_literal f n) ≡ positive n
is_ok-check_literal f none = refl
is_ok-check_literal f (some n) = ground arith

is_ok-check_resolved :
    (f : KernelField) (found : Option ℤ)
    → is_ok (check_resolved f found)
      ≡ positive (elim found [ some v ↦ some v | none ↦ atoi f.count ])
is_ok-check_resolved f none = is_ok-check_literal f (atoi f.count)
is_ok-check_resolved f (some v) = ground arith

is_ok-check_count :
    (consts : List (Text × ℤ)) (f : KernelField) → is_ok (check_count consts f) ≡ sized consts f
unfolding check_count
is_ok-check_count consts f = ground (arith, is_ok-check_resolved f (lookup f.count consts))

is_ok-check_fields :
    (consts : List (Text × ℤ)) (seen : List Text) (fields : List KernelField)
    → is_ok (check_fields consts seen fields) ≡ (
        all (laid_out consts) fields
        && distinct (field_names fields)
        && apart seen (field_names fields))
unfolding check_fields
is_ok-check_fields consts seen [] = refl
is_ok-check_fields consts seen (f ∷ rest) = ground (
  arith,
  is_ok-then (check_count consts f) (check_fields consts (f.name ∷ seen) rest),
  is_ok-check_count consts f,
  is_ok-check_fields consts (f.name ∷ seen) rest,
  apart-cons f.name seen (field_names rest),
)

-- The constants as the code's map.
abbrev table_of : List KernelConst → List (Text × ℤ)
table_of cs = reverse_onto (pairs_of cs) []

abbrev sound_layout : KernelLayout → Bool
sound_layout ke =
    not (is_empty ke.struct_name)
    && not (is_nil_list ke.fields)
    && (all titled ke.constants && distinct (const_names ke.constants))
    && all (laid_out (table_of ke.constants)) ke.fields
    && distinct (field_names ke.fields)

is_ok-check_layout : (ke : KernelLayout) → is_ok (check_layout ke) ≡ sound_layout ke
unfolding check_layout
is_ok-check_layout ke = ground (
  arith,
  is_ok-bind (check_constants [] ke.constants) (λ consts. check_fields consts [] ke.fields)
      (all titled ke.constants
        && distinct (const_names ke.constants)
        && apart [] (const_names ke.constants))
      (table_of ke.constants) (result-check_constants [] ke.constants),
  apart-nil (const_names ke.constants),
  is_ok-check_fields (table_of ke.constants) [] ke.fields,
  apart-nil (field_names ke.fields),
)

-- A document with tracepoints that are complete and have distinct programs and distinct pairs of group
-- and event, a sound schema and a sound layout.
unfoldable pub sound_doc : AbiDoc → Bool
sound_doc doc =
    not (is_nil_list doc.tracepoints)
    && (all hooked doc.tracepoints && distinct (programs_of doc.tracepoints))
    && distinct (keys_of doc.tracepoints)
    && sound_schema doc.schema
    && sound_layout doc.kernel_event

-- The validation accepts exactly the documents in which: there are tracepoints, with no empty name, no
-- program twice and no pair of group and event twice; the schema has a positive version, a table, and
-- columns with names, no two the same, and types; each index has a name of its own and columns, all of
-- the table; the layout has a name and fields, its constants and its fields have distinct names, the
-- fields types; and each count is empty or stands for a positive number.
pub is_ok-validate_doc : (doc : AbiDoc) → is_ok (validate_doc doc) ≡ sound_doc doc
unfolding validate_doc sound_doc
is_ok-validate_doc doc = ground (
  arith,
  is_ok-then (check_tracepoints 0 [] [] doc.tracepoints)
      (do schema ← check_schema doc.schema; check_layout doc.kernel_event),
  is_ok-then (check_schema doc.schema) (check_layout doc.kernel_event),
  is_ok-check_tracepoints 0 [] [] doc.tracepoints,
  apart-nil (programs_of doc.tracepoints),
  apart-nil (keys_of doc.tracepoints),
  is_ok-check_schema doc.schema,
  is_ok-check_layout doc.kernel_event,
)
