-- ===== src/Tests/Generators.antt =====
-- internal/abi/gen on a small document and a disk that is a function of its paths.
use ltm.Prelude.{
  pos, List, [], ◌∷◌, ◌++◌, Text, codes, none, some, Result, ok, err, ◌≡◌, refl, true, false,
  text_eq, text_eq_refl, text_eq_iff, if◌then◌else◌, arith, All,
}
use ltm.Go.Strings.{is_space}
use ltm.Abi.Doc.{
  AbiDoc, TableColumn, validate_doc, check_tracepoints, check_schema, check_columns, check_indexes,
  check_index_columns, check_layout, check_constants, check_fields, check_count,
}
use ltm.Diff.Report.{lookup}
use ltm.Abi.Checks.{is_ok}
use ltm.Abi.Accepts.{is_ok-validate_doc, sound_doc}
use ltm.Abi.Stamp.{Tools, go_header, prepend_c_header, prepend_go_header, split_generated_header}
use ltm.Abi.Recognised.{HexDigests, split_generated_header-prepend}
use ltm.Abi.Render.{schema_abi_file, schema_store_file, tracepoints_file}
use ltm.Abi.Build.{Disk, Paths, run_generator, verify_generated}
use ltm.Abi.Verified.{OnDisk, verify_generated_iff}
use ltm.Abi.Generates.{Generated, run_generator-Generated}

abbrev two_columns : List TableColumn
two_columns =
    record {
      name = codes "id";
      type_text = codes "INTEGER PRIMARY KEY";
      doc = codes "key";
      insert = some false;
    }
    ∷ record { name = codes "ts"; type_text = codes "INTEGER"; doc = codes "time"; insert = none }
    ∷ record {
      name = codes "pid";
      type_text = codes "INTEGER";
      doc = codes "process";
      insert = none;
    }
    ∷ []

abbrev small : AbiDoc
small = record {
  tracepoints =
      record {
        group = codes "syscalls";
        event = codes "exit";
        program = codes "on_exit";
        optional = true;
      }
      ∷ [];
  schema = record {
    version = pos 1;
    table = codes "events";
    table_doc = codes "one row";
    columns = two_columns;
    indexes = record { name = codes "by_ts"; columns = codes "ts" ∷ [] } ∷ [];
  };
  kernel_event = record {
    struct_name = codes "event_t";
    constants = record { name = codes "COMM_LEN"; value = pos 16 } ∷ [];
    fields =
        record { name = codes "pid"; type_text = codes "__u32"; count = [] }
        ∷ record { name = codes "comm"; type_text = codes "char"; count = codes "COMM_LEN" }
        ∷ [];
  };
}

-- An index on a column that the table has not.
abbrev unplaced : AbiDoc
unplaced = record small {
  schema = record small.schema {
    indexes = record { name = codes "by_uid"; columns = codes "uid" ∷ [] } ∷ [];
  };
}

abbrev digest : Text → Text
digest [] = codes "e3"
digest (c ∷ s) = if text_eq (c ∷ s) (codes "body") then codes "b0" else codes "d1"

abbrev tools : Tools
tools = record {
  quote = λ s. codes "\"" ++ s ++ codes "\"";
  format_source = λ s. some s;
  hash = digest;
}

digest-HexDigests : HexDigests tools
unfolding is_space text_eq
digest-HexDigests [] = refl
digest-HexDigests (c ∷ s) = ground arith

abbrev pub memory : Disk
memory = record {
  State = Text → Result (Unit {0}) Text;
  Error = Unit {0};
  read = λ s path. s path;
  write = λ s path content. ((λ other. if text_eq other path then ok content else s other), none);
  write_law = λ s path content h. ground (arith, text_eq_refl path);
  other_law = λ s path content other apart. ground (arith, text_eq_iff other path);
}

abbrev one_file : Text → Result (Unit {0}) Text
one_file path = if text_eq path (codes "abi.yaml") then ok (codes "tracepoints:") else err tt

abbrev paths : Paths
paths = record {
  tp_out = codes "t.go";
  schema_out = codes "s.go";
  store_out = codes "d.go";
  header_out = codes "k.h";
}

is_ok-validate_doc_example : is_ok (validate_doc small) ≡ sound_doc small
is_ok-validate_doc_example = is_ok-validate_doc small

split_generated_header-prepend_example :
    ((content : Text) × (prepend_go_header tools (codes "abi.yaml") (codes "body") ≡ ok content)
      × (split_generated_header content ≡ some (codes "b0", codes "body")))
    × (split_generated_header (prepend_c_header tools (codes "abi.yaml") (codes "body"))
        ≡ some (codes "b0", codes "body"))
unfolding text_eq
split_generated_header-prepend_example =
    split_generated_header-prepend tools (codes "abi.yaml") (codes "body") (codes "body")
      digest-HexDigests refl refl

run_generator-Generated_example :
    Generated memory {P = Unit {0}} tools
      (λ raw. ok small)
      one_file
      (codes "abi.yaml")
      paths
      (run_generator memory {P = Unit {0}} tools
        (λ raw. ok small)
        one_file
        (codes "abi.yaml")
        paths).files
unfolding run_generator text_eq check_tracepoints check_schema check_columns check_indexes
    check_index_columns check_layout check_constants lookup check_fields check_count
    tracepoints_file schema_abi_file schema_store_file
run_generator-Generated_example =
    run_generator-Generated memory {P = Unit {0}} tools (λ raw. ok small) (codes "abi.yaml")
      digest-HexDigests refl one_file paths refl

-- A generated file whose body has been edited, and one that has not.
abbrev stamped : Text → Text
stamped body = go_header (codes "abi.yaml") (codes "b0") ++ body

abbrev edited_files : Text → Result (Unit {0}) Text
edited_files path =
    if text_eq path (codes "t.go")
    then ok (stamped (codes "bodies"))
    else ok (stamped (codes "body"))

abbrev IntactFile : Type 0
IntactFile = All (OnDisk tools edited_files) (codes "s.go" ∷ [])

intact : IntactFile
unfolding text_eq split_generated_header go_header
intact = ((stamped (codes "body"), refl, (codes "body", refl)), tt)

verify_generated_iff_example : verify_generated tools edited_files (codes "s.go" ∷ []) ≡ ok tt
verify_generated_iff_example =
    (verify_generated_iff tools edited_files (codes "s.go" ∷ [])).1 intact
