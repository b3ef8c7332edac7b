-- ===== src/Abi/Build.antt =====
-- internal/abi/gen/main.go: the generator's run, and the check of what it has generated.
use ltm.Prelude.{
  List, [], ◌∷◌, Text, Option, none, some, text_eq, if◌then◌else◌, Result, ok, err, ◌>>=◌, ◌≡◌, ◌≢◌,
}
use ltm.Abi.Doc.{AbiDoc, DocError, validate_doc}
use ltm.Abi.Stamp.{Panic, Tools, split_generated_header}
use ltm.Abi.Render.{kernel_event_header, schema_abi_file, schema_store_file, tracepoints_file}

-- os.ReadFile and os.WriteFile. What a failed write leaves of its own file is open; no write changes
-- another one.
pub record Disk : Type 1 where
  pub State : Type 0
  pub Error : Type 0
  pub read : State → Text → Result Error Text
  pub write : State → Text → Text → State × Option Error
  pub write_law :
      (s : State) (path content : Text)
      → (write s path content).1 ≡ none
      → read (write s path content).0 path ≡ ok content
  pub other_law :
      (s : State) (path content other : Text)
      → other ≢ path
      → read (write s path content).0 other ≡ read s other

-- The errors of the run; `panicked` ends the process.
pub data RunError (E P : Type 0) : Type 0 where
  unread unwritten : E → RunError E P
  unparsed : P → RunError E P
  invalid : DocError → RunError E P
  panicked : Panic → RunError E P

-- The files after the run, and its error.
pub record Ran (d : Disk) (P : Type 0) : Type 0 where
  pub files : d.State
  pub error : Option (RunError d.Error P)

module _ (d : Disk) {P : Type 0} where
  abbrev pub stop : d.State → RunError d.Error P → Ran d P
  stop s e = record { files = s; error = some e }

  abbrev pub wrote : d.State × Option d.Error → Ran d P
  wrote (s, none) = record { files = s; error = none }
  wrote (s, some e) = stop s (unwritten e)

  -- The write of what has been rendered.
  unfoldable pub write_rendered : d.State → Text → Result Panic Text → Ran d P
  write_rendered s path (err p) = stop s (panicked p)
  write_rendered s path (ok content) = wrote (d.write s path content)

  abbrev pub on_disk : Ran d P → (d.State → Ran d P) → Option (RunError d.Error P) → Ran d P
  on_disk r next none = next r.files
  on_disk r next (some e) = r

  abbrev pub and_then : Ran d P → (d.State → Ran d P) → Ran d P
  and_then r next = on_disk r next r.error

-- The paths of the four generated files.
pub record Paths : Type 0 where
  pub tp_out : Text
  pub schema_out : Text
  pub store_out : Text
  pub header_out : Text

module _ (d : Disk) {P : Type 0} (t : Tools) (decode : Text → Result P AbiDoc) where
  unfoldable pub generate : d.State → Text → Paths → AbiDoc → Ran d P
  unfolding write_rendered
  generate s source paths doc =
      and_then d (write_rendered d s paths.tp_out (tracepoints_file t source doc.tracepoints))
        (λ s1.
          and_then d (write_rendered d s1 paths.schema_out (schema_abi_file t source doc.schema))
            (λ s2.
              and_then d
                (write_rendered d s2 paths.store_out (schema_store_file t source doc.schema))
                (λ s3.
                  write_rendered d s3 paths.header_out
                    (ok (kernel_event_header t source doc.kernel_event)))))

  abbrev pub on_valid : d.State → Text → Paths → AbiDoc → Result DocError (Unit {0}) → Ran d P
  on_valid s source paths doc (err e) = stop d s (invalid e)
  on_valid s source paths doc (ok u) = generate s source paths doc

  abbrev pub on_decoded : d.State → Text → Paths → Result P AbiDoc → Ran d P
  on_decoded s source paths (err e) = stop d s (unparsed e)
  on_decoded s source paths (ok doc) = on_valid s source paths doc (validate_doc doc)

  abbrev pub on_read : d.State → Text → Paths → Result d.Error Text → Ran d P
  on_read s source paths (err e) = stop d s (unread e)
  on_read s source paths (ok raw) = on_decoded s source paths (decode raw)

  unfoldable pub run_generator : d.State → Text → Paths → Ran d P
  unfolding generate validate_doc
  run_generator s source paths = on_read s source paths (d.read s source)

pub data VerifyError (E : Type 0) : Type 0 where
  unreadable : Text → E → VerifyError E
  malformed : Text → VerifyError E
  mismatch : Text → Text → Text → VerifyError E

module _ {E : Type 0} (t : Tools) where
  abbrev pub check_parts : Text → Option (Text × Text) → Result (VerifyError E) (Unit {0})
  check_parts path none = err (malformed path)
  check_parts path (some (want, body)) =
      if text_eq (t.hash body) want then ok tt else err (mismatch path (t.hash body) want)

  abbrev pub check_content : Text → Result E Text → Result (VerifyError E) (Unit {0})
  check_content path (err e) = err (unreadable path e)
  check_content path (ok content) = check_parts path (split_generated_header content)

  -- The loop ends at the first file that fails.
  unfoldable pub verify_generated :
      (Text → Result E Text) → List Text → Result (VerifyError E) (Unit {0})
  unfolding split_generated_header text_eq
  verify_generated read [] = ok tt
  verify_generated read (path ∷ paths) = do
    matched ← check_content path (read path)
    verify_generated read paths
