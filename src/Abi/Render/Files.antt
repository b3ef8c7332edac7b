-- ===== src/Abi/Render/Files.antt =====
-- internal/abi/gen/main.go: the texts of the three generated Go files.
use ltm.Prelude.{
  ℕ, ◌-◌, List, [], ◌∷◌, ◌++◌, Text, codes, is_empty, length, leb, map, replicate, Result, ok, err,
  ◌>>=◌, if◌then◌else◌,
}
use ltm.Go.Numbers.{itoa}
use ltm.Go.Strings.{contains, fields, join, repeat, trim_suffix}
use ltm.Abi.Doc.{Tracepoint, TableColumn, TableIndex, Schema, inserted, is_nil_list}
use ltm.Abi.Stamp.{Panic, backtick, no_base_type, Tools, prepend_go_header}

-- A Go raw string literal.
unfoldable pub backquote : Text → Result Panic Text
unfolding contains
backquote s = if contains s (codes "`") then err backtick else ok (codes "`" ++ s ++ codes "`")

unfoldable pub tracepoint_lines : Tools → List Tracepoint → Text
tracepoint_lines t [] = []
tracepoint_lines t (tp ∷ tps) =
    codes "\t{Group: "
    ++ t.quote tp.group
    ++ codes ", Event: "
    ++ t.quote tp.event
    ++ codes ", Program: "
    ++ t.quote tp.program
    ++ (if tp.optional then codes ", Optional: true" else [])
    ++ codes "},\n"
    ++ tracepoint_lines t tps

abbrev tracepoints_head : Text
tracepoints_head =
    codes "package abi\n\n"
    ++ codes "// TracepointSpec defines one loader-visible capture hook in the embedded BPF\n"
    ++ codes "// object contract.\n"
    ++ codes "type TracepointSpec struct {\n"
    ++ codes "\tGroup    string\n\tEvent    string\n\tProgram  string\n\tOptional bool\n}\n\n"
    ++ codes "// CollectorTracepoints is the tracepoint/program contract expected by the eBPF\n"
    ++ codes "// loader. It is generated from abi.yaml, the source of truth.\n"
    ++ codes "var CollectorTracepoints = []TracepointSpec{\n"

unfoldable pub tracepoints_file : Tools → Text → List Tracepoint → Result Panic Text
unfolding tracepoint_lines prepend_go_header
tracepoints_file t source tps =
    prepend_go_header t source (tracepoints_head ++ tracepoint_lines t tps ++ codes "}\n")

-- The loop that looks for the widest name.
unfoldable pub widest : ℕ → List TableColumn → ℕ
widest width [] = width
widest width (c ∷ cs) = widest (if leb (length c.name) width then width else length c.name) cs

-- fmt's %-*s.
abbrev pub pad_right : ℕ → Text → Text
pad_right width s = s ++ replicate (width - length s) b' '

-- `strings.Fields(c.Type)[0]`.
abbrev first_field : List Text → Result Panic Text
first_field [] = err no_base_type
first_field (w ∷ ws) = ok w

unfoldable pub column_lines : ℕ → List TableColumn → Result Panic Text
unfolding fields
column_lines width [] = ok []
column_lines width (c ∷ cs) = do
  base_type ← first_field (fields c.type_text)
  rest ← column_lines width cs
  ok (
      codes "  "
      ++ pad_right width c.name
      ++ codes "  "
      ++ pad_right 7 base_type
      ++ codes "  "
      ++ c.doc
      ++ codes "\n"
      ++ rest)

unfoldable pub index_part : List Text → Text
unfolding join
index_part (col ∷ []) = col
index_part cols = codes "(" ++ join cols (codes ", ") ++ codes ")"

unfoldable pub schema_doc : Schema → Result Panic Text
unfolding widest column_lines index_part join
schema_doc s = do
  lines ← column_lines (widest 0 s.columns) s.columns
  ok (
      codes "Table: "
      ++ s.table
      ++ (if is_empty s.table_doc then [] else codes " (" ++ s.table_doc ++ codes ")")
      ++ codes "\n"
      ++ lines
      ++ codes "\nIndexes: "
      ++ join (map (λ i. index_part i.columns) s.indexes) (codes ", "))

unfoldable pub schema_abi_file : Tools → Text → Schema → Result Panic Text
unfolding schema_doc backquote itoa prepend_go_header
schema_abi_file t source s = do
  doc ← schema_doc s
  quoted ← backquote doc
  prepend_go_header t source (
      codes "package abi\n\n"
      ++ codes "const SchemaVersion = "
      ++ itoa s.version
      ++ codes "\n\n"
      ++ codes "// SchemaDoc describes the queryable data model. It is shown by `ltm query sql`\n"
      ++ codes "// with no arguments and embedded in the prompt sent to a configured agent.\n"
      ++ codes "const SchemaDoc = "
      ++ quoted
      ++ codes "\n")

-- The columns of the table's definition, with a comma behind all but the last.
unfoldable pub ddl_columns : List TableColumn → Text
ddl_columns [] = []
ddl_columns (c ∷ cs) =
    codes "\t"
    ++ c.name
    ++ codes " "
    ++ c.type_text
    ++ (if is_nil_list cs then [] else codes ",")
    ++ codes "\n"
    ++ ddl_columns cs

unfoldable pub table_ddl : Schema → Text
unfolding ddl_columns
table_ddl s =
    codes "CREATE TABLE IF NOT EXISTS "
    ++ s.table
    ++ codes " (\n"
    ++ ddl_columns s.columns
    ++ codes ")"

unfoldable pub all_names : List TableColumn → List Text
all_names = map (λ c. c.name)

unfoldable pub insert_names : List TableColumn → List Text
insert_names [] = []
insert_names (c ∷ cs) = if inserted c then c.name ∷ insert_names cs else insert_names cs

unfoldable pub placeholder_list : List TableColumn → Text
unfolding insert_names trim_suffix repeat
placeholder_list cs = trim_suffix (repeat (codes "?, ") (length (insert_names cs))) (codes ", ")

unfoldable pub index_statement : Text → TableIndex → Text
unfolding join
index_statement table i =
    codes "CREATE INDEX IF NOT EXISTS "
    ++ i.name
    ++ codes " ON "
    ++ table
    ++ codes "("
    ++ join i.columns (codes ", ")
    ++ codes ")"

unfoldable pub index_lines : Text → List TableIndex → Result Panic Text
unfolding index_statement backquote
index_lines table [] = ok []
index_lines table (i ∷ is_) = do
  quoted ← backquote (index_statement table i)
  rest ← index_lines table is_
  ok (codes "\t" ++ quoted ++ codes ",\n" ++ rest)

unfoldable pub schema_store_file : Tools → Text → Schema → Result Panic Text
unfolding table_ddl index_lines all_names insert_names placeholder_list backquote join
    prepend_go_header
schema_store_file t source s = do
  ddl ← backquote (table_ddl s)
  indexes ← index_lines s.table s.indexes
  event_columns ← backquote (join (all_names s.columns) (codes ", "))
  insert_columns ← backquote (join (insert_names s.columns) (codes ", "))
  insert_placeholders ← backquote (placeholder_list s.columns)
  prepend_go_header t source (
      codes "package storage\n\n"
      ++ codes "var schemaStatements = []string{\n"
      ++ codes "\t"
      ++ ddl
      ++ codes ",\n"
      ++ indexes
      ++ codes "}\n\n"
      ++ codes "const eventColumns = "
      ++ event_columns
      ++ codes "\n\nconst insertColumns = "
      ++ insert_columns
      ++ codes "\n\nconst insertPlaceholders = "
      ++ insert_placeholders
      ++ codes "\n")
