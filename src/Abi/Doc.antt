-- ===== src/Abi/Doc.antt =====
-- internal/abi/gen/main.go: the decoded document, and `validate`. A Go set or map is the list of its
-- keys, the last one first.
use ltm.Prelude.{
  ℕ, suc, ℤ, pos, Bool, true, false, ◌||◌, List, [], ◌∷◌, ◌++◌, Text, Option, none, some, is_empty,
  member, leb_ℤ, if◌then◌else◌, Result, ok, err, ◌>>=◌,
}
use ltm.Diff.Report.{lookup}
use ltm.Go.Numbers.{atoi}

pub record Tracepoint : Type 0 where
  pub group : Text
  pub event : Text
  pub program : Text
  pub optional : Bool

-- `insert` is absent where it is not given.
pub record TableColumn : Type 0 where
  pub name : Text
  pub type_text : Text
  pub doc : Text
  pub insert : Option Bool

abbrev or_true : Option Bool → Bool
or_true none = true
or_true (some b) = b

abbrev pub inserted : TableColumn → Bool
inserted c = or_true c.insert

pub record TableIndex : Type 0 where
  pub name : Text
  pub columns : List Text

pub record Schema : Type 0 where
  pub version : ℤ
  pub table : Text
  pub table_doc : Text
  pub columns : List TableColumn
  pub indexes : List TableIndex

pub record KernelConst : Type 0 where
  pub name : Text
  pub value : ℤ

-- `count` is the name of a constant or a literal, and empty for a scalar.
pub record KernelField : Type 0 where
  pub name : Text
  pub type_text : Text
  pub count : Text

pub record KernelLayout : Type 0 where
  pub struct_name : Text
  pub constants : List KernelConst
  pub fields : List KernelField

pub record AbiDoc : Type 0 where
  pub tracepoints : List Tracepoint
  pub schema : Schema
  pub kernel_event : KernelLayout

pub data DocError : Type 0 where
  no_tracepoints : DocError
  empty_tracepoint : ℕ → DocError
  duplicate_program duplicate_column empty_index duplicate_index : Text → DocError
  duplicate_tracepoint unknown_column : Text → Text → DocError
  bad_version : ℤ → DocError
  empty_table no_columns empty_column empty_struct no_fields empty_constant empty_field : DocError
  duplicate_constant duplicate_field : Text → DocError
  constant_not_positive count_not_positive : Text → Text → ℤ → DocError
  count_not_integer : Text → Text → DocError

abbrev pub Check : Type 0
Check = Result DocError (Unit {0})

-- `tp.Group + "\x00" + tp.Event`.
abbrev pub pair_key : Tracepoint → Text
pair_key tp = tp.group ++ 0 ∷ tp.event

-- The loop at tracepoint number i.
unfoldable pub check_tracepoints : ℕ → List Text → List Text → List Tracepoint → Check
check_tracepoints i programs pairs [] = ok tt
check_tracepoints i programs pairs (tp ∷ tps) =
    if is_empty tp.group || is_empty tp.event || is_empty tp.program
    then err (empty_tracepoint i)
    else if member tp.program programs
    then err (duplicate_program tp.program)
    else if member (pair_key tp) pairs
    then err (duplicate_tracepoint tp.group tp.event)
    else check_tracepoints (suc i) (tp.program ∷ programs) (pair_key tp ∷ pairs) tps

-- The columns' names.
unfoldable pub check_columns : List Text → List TableColumn → Result DocError (List Text)
check_columns cols [] = ok cols
check_columns cols (c ∷ cs) =
    if is_empty c.name || is_empty c.type_text
    then err empty_column
    else if member c.name cols
    then err (duplicate_column c.name)
    else check_columns (c.name ∷ cols) cs

unfoldable pub check_index_columns : List Text → Text → List Text → Check
check_index_columns cols name [] = ok tt
check_index_columns cols name (col ∷ rest) =
    if member col cols then check_index_columns cols name rest else err (unknown_column name col)

abbrev pub is_nil_list {ℓ} : {A : Type ℓ} → List A → Bool
is_nil_list [] = true
is_nil_list (x ∷ xs) = false

unfoldable pub check_indexes : List Text → List Text → List TableIndex → Check
check_indexes cols seen [] = ok tt
check_indexes cols seen (idx ∷ rest) =
    if is_empty idx.name || is_nil_list idx.columns
    then err (empty_index idx.name)
    else if member idx.name seen
    then err (duplicate_index idx.name)
    else (do
      known ← check_index_columns cols idx.name idx.columns
      check_indexes cols (idx.name ∷ seen) rest)

unfoldable pub check_schema : Schema → Check
check_schema s =
    if leb_ℤ s.version (pos 0)
    then err (bad_version s.version)
    else if is_empty s.table
    then err empty_table
    else if is_nil_list s.columns
    then err no_columns
    else (do cols ← check_columns [] s.columns; check_indexes cols [] s.indexes)

unfoldable pub check_constants :
    List (Text × ℤ) → List KernelConst → Result DocError (List (Text × ℤ))
check_constants consts [] = ok consts
check_constants consts (c ∷ cs) = elim (is_empty c.name) [
  | true ↦ err empty_constant
  | false ↦ elim (lookup c.name consts) [
    | some v ↦ err (duplicate_constant c.name)
    | none ↦ check_constants ((c.name, c.value) ∷ consts) cs
  ]
]

abbrev pub check_literal : KernelField → Option ℤ → Check
check_literal f none = err (count_not_integer f.name f.count)
check_literal f (some n) =
    if leb_ℤ n (pos 0) then err (count_not_positive f.name f.count n) else ok tt

abbrev pub check_resolved : KernelField → Option ℤ → Check
check_resolved f (some v) =
    if leb_ℤ v (pos 0) then err (constant_not_positive f.name f.count v) else ok tt
check_resolved f none = check_literal f (atoi f.count)

-- A count is a constant's name or a literal.
unfoldable pub check_count : List (Text × ℤ) → KernelField → Check
check_count consts f = if is_empty f.count then ok tt else check_resolved f (lookup f.count consts)

unfoldable pub check_fields : List (Text × ℤ) → List Text → List KernelField → Check
check_fields consts fields [] = ok tt
check_fields consts fields (f ∷ rest) =
    if is_empty f.name || is_empty f.type_text
    then err empty_field
    else if member f.name fields
    then err (duplicate_field f.name)
    else (do counted ← check_count consts f; check_fields consts (f.name ∷ fields) rest)

unfoldable pub check_layout : KernelLayout → Check
check_layout ke =
    if is_empty ke.struct_name
    then err empty_struct
    else if is_nil_list ke.fields
    then err no_fields
    else (do consts ← check_constants [] ke.constants; check_fields consts [] ke.fields)

unfoldable pub validate_doc : AbiDoc → Check
validate_doc doc = if is_nil_list doc.tracepoints then err no_tracepoints else (do
  tracepoints ← check_tracepoints 0 [] [] doc.tracepoints
  schema ← check_schema doc.schema
  check_layout doc.kernel_event)
