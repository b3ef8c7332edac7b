-- ===== src/Abi/Generates.antt =====
-- What the generator of internal/abi/gen/main.go leaves on the disk when its run succeeds, and that it
-- writes nothing for a document that the validation rejects.
use ltm.Prelude.{
  List, [], ◌∷◌, Text, none, some, codes, Result, ok, err, ◌≡◌, true, false, All, refl, sym, ap,
  ◌∙◌, ◌>>=◌,
}
use ltm.Go.Strings.{join}
use ltm.Abi.Doc.{AbiDoc, DocError, KernelLayout, Schema, Tracepoint, validate_doc}
use ltm.Abi.Stamp.{Panic, Tools, split_generated_header, prepend_c_header}
use ltm.Abi.Recognised.{
  HexDigests, OneLine, Intact, prepend_go_header-Intact, split_generated_header-c_header,
  ok-injective,
}
use ltm.Abi.Render.{
  kernel_event_header, kernel_event_text, schema_abi_file, schema_store_file, tracepoints_file,
  backquote, schema_doc, table_ddl, index_lines, all_names, insert_names, placeholder_list,
}
use ltm.Abi.Build.{
  stop, Disk, Ran, Paths, invalid, generate, run_generator, on_read, on_decoded, on_valid,
  verify_generated,
}
use mathlib.Core.Path.{subst}
use ltm.Abi.Checks.{is_ok}
use ltm.Abi.Accepts.{is_ok-validate_doc, sound_doc}
use ltm.Abi.Verified.{OnDisk, then_adds, write_rendered_adds, verify_generated_iff}

bind_ok :
    {A B : Type 0} (r : Result Panic A) (f : A → Result Panic B) {b : B}
    → (r >>= f) ≡ ok b
    → (a : A) × (f a ≡ ok b)
bind_ok (ok a) f h = (a, h)
bind_ok (err e) f h = absurd (cc h)

module _ (t : Tools) (source : Text) (hex : HexDigests t) (named : OneLine source) where
  schema_abi_file-Intact :
      (s : Schema) (content : Text) → schema_abi_file t source s ≡ ok content → Intact t content
  unfolding schema_abi_file
  schema_abi_file-Intact s content h =
      let doc = bind_ok (schema_doc s) _ h in
      let quoted = bind_ok (backquote doc.0) _ doc.1 in
      prepend_go_header-Intact t source _ hex named quoted.1

  schema_store_file-Intact :
      (s : Schema) (content : Text) → schema_store_file t source s ≡ ok content → Intact t content
  unfolding schema_store_file
  schema_store_file-Intact s content h =
      let ddl = bind_ok (backquote (table_ddl s)) _ h in
      let indexes = bind_ok (index_lines s.table s.indexes) _ ddl.1 in
      let all = bind_ok (backquote (join (all_names s.columns) (codes ", "))) _ indexes.1 in
      let insert = bind_ok (backquote (join (insert_names s.columns) (codes ", "))) _ all.1 in
      let marks = bind_ok (backquote (placeholder_list s.columns)) _ insert.1 in
      prepend_go_header-Intact t source _ hex named marks.1

  tracepoints_file-Intact :
      (tps : List Tracepoint) (content : Text)
      → tracepoints_file t source tps ≡ ok content
      → Intact t content
  unfolding tracepoints_file
  tracepoints_file-Intact tps content h = prepend_go_header-Intact t source _ hex named h

  kernel_event_header-Intact :
      (ke : KernelLayout) (r : Result Panic Text) (content : Text)
      → r ≡ ok (kernel_event_header t source ke)
      → r ≡ ok content
      → Intact t content
  unfolding kernel_event_header prepend_c_header
  kernel_event_header-Intact ke r content made h = (
    kernel_event_text ke,
    ap split_generated_header (ok-injective h made)
        ∙ split_generated_header-c_header source _ _ named (hex _),
  )

abbrev pub outputs : Paths → List Text
outputs p = p.header_out ∷ p.store_out ∷ p.schema_out ∷ p.tp_out ∷ []

module _ (d : Disk) {P : Type 0} (t : Tools) (decode : Text → Result P AbiDoc) (source : Text)
    (hex : HexDigests t) (named : OneLine source) where
  generate-OnDisk :
      (s : d.State) (paths : Paths) (doc : AbiDoc)
      → (generate d t decode s source paths doc).error ≡ none
      → All (OnDisk t (d.read (generate d t decode s source paths doc).files)) (outputs paths)
  unfolding generate
  generate-OnDisk s p doc h =
      then_adds d t s p.tp_out _ _ [] (outputs p)
        (tracepoints_file-Intact t source hex named doc.tracepoints)
        (λ s1 h1.
          then_adds d t s1 p.schema_out _ _ (p.tp_out ∷ []) (outputs p)
            (schema_abi_file-Intact t source hex named doc.schema)
            (λ s2 h2.
              then_adds d t s2 p.store_out _ _ (p.schema_out ∷ p.tp_out ∷ []) (outputs p)
                (schema_store_file-Intact t source hex named doc.schema)
                (λ s3 h3.
                  write_rendered_adds d t s3 p.header_out _
                    (p.store_out ∷ p.schema_out ∷ p.tp_out ∷ [])
                    (λ content.
                      kernel_event_header-Intact t source hex named doc.kernel_event _ content refl)
                    h3)
                h2)
            h1)
        h tt

-- What a run without an error has gone through.
abbrev pub Generated :
    (d : Disk) {P : Type 0}
    → Tools
    → (Text → Result P AbiDoc)
    → d.State
    → Text
    → Paths
    → d.State
    → Type 0
Generated d t decode s source p files =
    (raw : Text) × (doc : AbiDoc) × (d.read s source ≡ ok raw)
    × (decode raw ≡ ok doc)
    × (sound_doc doc ≡ true)
    × (verify_generated t (d.read files) (p.tp_out ∷ p.schema_out ∷ p.store_out ∷ p.header_out ∷ [])
        ≡ ok tt)

module _ (d : Disk) {P : Type 0} (t : Tools) (decode : Text → Result P AbiDoc) (source : Text)
    (hex : HexDigests t) (named : OneLine source) where
  on_valid_sound :
      (s : d.State) (p : Paths) (doc : AbiDoc) (checked : Result DocError (Unit {0}))
      → (on_valid d t decode s source p doc checked).error ≡ none
      → (is_ok checked ≡ true)
        × (on_valid d t decode s source p doc checked ≡ generate d t decode s source p doc)
  on_valid_sound s p doc (err e) h = absurd (cc h)
  on_valid_sound s p doc (ok u) h = (refl, refl)

  on_decoded-Generated :
      (s : d.State) (p : Paths) (raw : Text) (r : Result P AbiDoc)
      → d.read s source ≡ ok raw
      → decode raw ≡ r
      → (on_decoded d t decode s source p r).error ≡ none
      → Generated d t decode s source p (on_decoded d t decode s source p r).files
  on_decoded-Generated s p raw (err e) here parsed h = absurd (cc h)
  on_decoded-Generated s p raw (ok doc) here parsed h =
      let sound = on_valid_sound s p doc (validate_doc doc) h in
      let left =
        generate-OnDisk d t decode source hex named s p doc
          (subst (λ (x : Ran d P). x.error ≡ none) sound.1 h) in
      (
        raw,
        doc,
        here,
        parsed,
        sym (is_ok-validate_doc doc) ∙ sound.0,
        subst
            (λ (x : Ran d P).
              verify_generated t (d.read x.files)
                (p.tp_out ∷ p.schema_out ∷ p.store_out ∷ p.header_out ∷ [])
              ≡ ok tt)
            (sym sound.1)
            ((verify_generated_iff t (d.read (generate d t decode s source p doc).files) _).1
              (left.1.1.1.0, (left.1.1.0, (left.1.0, (left.0, tt))))),
      )

  on_read-Generated :
      (s : d.State) (p : Paths) (r : Result d.Error Text)
      → d.read s source ≡ r
      → (on_read d t decode s source p r).error ≡ none
      → Generated d t decode s source p (on_read d t decode s source p r).files
  on_read-Generated s p (err e) here h = absurd (cc h)
  on_read-Generated s p (ok raw) here h = on_decoded-Generated s p raw (decode raw) here refl h

  -- A run that ends without an error has read and decoded its source, the document is sound, and the
  -- four files that it leaves, read by the -verify mode, match their digests.
  pub run_generator-Generated :
      (s : d.State) (p : Paths)
      → (run_generator d t decode s source p).error ≡ none
      → Generated d t decode s source p (run_generator d t decode s source p).files
  unfolding run_generator
  run_generator-Generated s p h = on_read-Generated s p (d.read s source) refl h

module _ (d : Disk) {P : Type 0} (t : Tools) (decode : Text → Result P AbiDoc) where
  on_valid-rejects :
      (s : d.State) (source : Text) (p : Paths) (doc : AbiDoc)
      (checked : Result DocError (Unit {0}))
      → is_ok checked ≡ false
      → (e : DocError) × (on_valid d t decode s source p doc checked ≡ stop d s (invalid e))
  on_valid-rejects s source p doc (err e) h = (e, refl)
  on_valid-rejects s source p doc (ok u) h = absurd (cc h)

  -- For a document that is not sound the run writes nothing and ends with the validation's error.
  run_generator-rejects :
      (s : d.State) (source : Text) (p : Paths) (raw : Text) (doc : AbiDoc)
      → d.read s source ≡ ok raw
      → decode raw ≡ ok doc
      → sound_doc doc ≡ false
      → (e : DocError) × (run_generator d t decode s source p
          ≡ record { files = s; error = some (invalid e) })
  unfolding run_generator
  run_generator-rejects s source p raw doc here parsed unsound =
      let rejected =
        on_valid-rejects s source p doc (validate_doc doc) (is_ok-validate_doc doc ∙ unsound) in
      (rejected.0, rw (here, parsed) rejected.1)
