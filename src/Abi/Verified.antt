-- ===== src/Abi/Verified.antt =====
-- What the generator of internal/abi/gen/main.go leaves on the disk, as its -verify mode reads it.
use ltm.Prelude.{
  ◌++◌, List, [], ◌∷◌, Text, Option, none, some, text_eq, text_eq_iff, text_eq_refl, Result, ok,
  err, ◌≡◌, ◌≢◌, All, refl, sym, ap, ◌∙◌, ◌>>=◌, Bool-cases, false, inl, inr, ◌↔◌,
}
use mathlib.Core.Path.{subst}
use ltm.Abi.Stamp.{go_header, Panic, Tools, split_generated_header}
use ltm.Abi.Recognised.{split_generated_header-go_header, HexDigests, OneLine, Intact}
use ltm.Abi.Build.{
  mismatch, Disk, Ran, RunError, write_rendered, wrote, and_then, VerifyError, check_parts,
  check_content, verify_generated,
}

-- The file is there and carries the digest of its body.
abbrev pub OnDisk : {E : Type 0} → Tools → (Text → Result E Text) → Text → Type 0
OnDisk t read path = (content : Text) × (read path ≡ ok content) × Intact t content

differ : {a b : Text} → a ≢ b → text_eq a b ≡ false
differ {a} {b} apart = elim (Bool-cases (text_eq a b)) [
  | inl same ↦ absurd (apart ((text_eq_iff a b).0 same))
  | inr e ↦ e
]

module _ {E : Type 0} (t : Tools) where
  check_parts_sound :
      (path : Text) (parts : Option (Text × Text))
      → check_parts {E = E} t path parts ≡ ok tt
      → (body : Text) × (parts ≡ some (t.hash body, body))
  check_parts_sound path none h = absurd (cc h)
  check_parts_sound path (some (want, body)) h = elim (Bool-cases (text_eq (t.hash body) want)) [
    | inl same ↦ (body, ap (λ w. some (w, body)) (sym ((text_eq_iff (t.hash body) want).0 same)))
    | inr apart ↦ absurd (cc (rw apart at h))
  ]

  check_content_sound :
      (read : Text → Result E Text) (path : Text) (found : Result E Text)
      → read path ≡ found
      → check_content t path found ≡ ok tt
      → OnDisk t read path
  check_content_sound read path (err e) here h = absurd (cc h)
  check_content_sound read path (ok content) here h =
      (content, here, check_parts_sound path (split_generated_header content) h)

  check_content_complete :
      (read : Text → Result E Text) (path : Text)
      → OnDisk t read path
      → check_content t path (read path) ≡ ok tt
  check_content_complete read path (content, here, (body, split)) =
      rw (here, split, text_eq_refl (t.hash body)) refl

  both_ok :
      (r s : Result (VerifyError E) (Unit {0}))
      → ((do u ← r; s) ≡ ok tt) ↔ ((r ≡ ok tt) × (s ≡ ok tt))
  both_ok (ok u) s = ((λ h. (refl, h)), (λ h. h.1))
  both_ok (err e) s = ((λ h. absurd (cc h)), (λ h. absurd (cc h.0)))

  -- The -verify mode accepts a list of files exactly when each can be read and carries, in the header's
  -- second line, the digest of what stands behind the header.
  pub verify_generated_iff :
      (read : Text → Result E Text) (paths : List Text)
      → (verify_generated t read paths ≡ ok tt) ↔ All (OnDisk t read) paths
  unfolding verify_generated
  verify_generated_iff read [] = ((λ h. tt), (λ h. refl))
  verify_generated_iff read (path ∷ paths) =
      let later = verify_generated_iff read paths in
      let split = both_ok (check_content t path (read path)) (verify_generated t read paths) in
      (
        (λ h.
            let parts = split.0 h in
            (check_content_sound read path (read path) refl parts.0, later.0 parts.1)),
        (λ h. split.1 (check_content_complete read path h.0, later.1 h.1)),
      )

  verify_generated-append :
      (read : Text → Result E Text) (before after : List Text)
      → verify_generated t read before ≡ ok tt
      → verify_generated t read (before ++ after) ≡ verify_generated t read after
  unfolding verify_generated
  verify_generated-append read [] after h = refl
  verify_generated-append read (path ∷ paths) after h =
      let split =
        (both_ok (check_content t path (read path)) (verify_generated t read paths)).0 h in
      rw (split.0) (verify_generated-append read paths after split.1)

  -- Behind files that are intact, a file with a generated header and a body that was edited afterwards
  -- ends the check with both digests, where the digests differ.
  verify_generated-edited :
      (read : Text → Result E Text) (before after : List Text) (path source body edited : Text)
      → HexDigests t
      → OneLine source
      → All (OnDisk t read) before
      → read path ≡ ok (go_header source (t.hash body) ++ edited)
      → t.hash edited ≢ t.hash body
      → verify_generated t read (before ++ path ∷ after)
        ≡ err (mismatch path (t.hash edited) (t.hash body))
  unfolding verify_generated
  verify_generated-edited read before after path source body edited hex named intact here differs =
      verify_generated-append read before (path ∷ after)
        ((verify_generated_iff read before).1 intact)
      ∙ rw
          (
            here,
            split_generated_header-go_header source (t.hash body) edited named (hex body),
            differ differs,
          )
          refl

text_differs : {a b : Text} → text_eq a b ≡ false → a ≢ b
text_differs {a} {b} apart same = cc (apart, (text_eq_iff a b).1 same)

module _ (d : Disk) (t : Tools) where
  wrote_keeps :
      (s : d.State) (path content other : Text)
      → Intact t content
      → (d.write s path content).1 ≡ none
      → OnDisk t (d.read s) other
      → OnDisk t (d.read (d.write s path content).0) other
  wrote_keeps s path content other h e kept = elim (Bool-cases (text_eq other path)) [
    | inl same ↦ (
      content,
      ap (d.read (d.write s path content).0) ((text_eq_iff other path).0 same)
          ∙ d.write_law s path content e,
      h,
    )
    | inr apart ↦ (kept.0, d.other_law s path content other (text_differs apart) ∙ kept.1, kept.2)
  ]

  wrote_keeps_All :
      (s : d.State) (path content : Text) (paths : List Text)
      → Intact t content
      → (d.write s path content).1 ≡ none
      → All (OnDisk t (d.read s)) paths
      → All (OnDisk t (d.read (d.write s path content).0)) paths
  wrote_keeps_All s path content [] h e kept = tt
  wrote_keeps_All s path content (p ∷ ps) h e kept =
      (wrote_keeps s path content p h e kept.0, wrote_keeps_All s path content ps h e kept.1)

module _ (d : Disk) {P : Type 0} (t : Tools) where
  wrote-none :
      (w : d.State × Option d.Error)
      → (wrote d {P = P} w).error ≡ none
      → (w.1 ≡ none) × ((wrote d {P = P} w).files ≡ w.0)
  wrote-none (s, none) h = (refl, refl)
  wrote-none (s, some e) h = absurd (cc h)

  -- A write step that succeeds adds its file to the intact ones.
  pub write_rendered_adds :
      (s : d.State) (path : Text) (r : Result Panic Text) (paths : List Text)
      → ((content : Text) → r ≡ ok content → Intact t content)
      → (write_rendered d {P = P} s path r).error ≡ none
      → All (OnDisk t (d.read s)) paths
      → All (OnDisk t (d.read (write_rendered d {P = P} s path r).files)) (path ∷ paths)
  unfolding write_rendered
  write_rendered_adds s path (err p) paths made h kept = absurd (cc h)
  write_rendered_adds s path (ok content) paths made h kept =
      let w = wrote-none (d.write s path content) h in
      subst (λ s1. All (OnDisk t (d.read s1)) (path ∷ paths)) (sym w.1)
        (
          (content, d.write_law s path content w.0, made content refl),
          wrote_keeps_All d t s path content paths (made content refl) w.0 kept,
        )

  and_then-none :
      (r : Ran d P) (next : d.State → Ran d P)
      → (and_then d r next).error ≡ none
      → (r.error ≡ none) × (and_then d r next ≡ next r.files)
  and_then-none r next h = go r.error refl
    where
      go :
          (e : Option (RunError d.Error P))
          → r.error ≡ e
          → (r.error ≡ none) × (and_then d r next ≡ next r.files)
      go none e = (e, rw e refl)
      go (some x) e = absurd (cc (rw e at h))

  -- One write, and the writes behind it.
  pub then_adds :
      (s : d.State) (path : Text) (r : Result Panic Text) (next : d.State → Ran d P)
      (paths : List Text) (after : List Text)
      → ((content : Text) → r ≡ ok content → Intact t content)
      → ((s1 : d.State)
          → (next s1).error ≡ none
          → All (OnDisk t (d.read s1)) (path ∷ paths)
          → All (OnDisk t (d.read (next s1).files)) after)
      → (and_then d (write_rendered d s path r) next).error ≡ none
      → All (OnDisk t (d.read s)) paths
      → All (OnDisk t (d.read (and_then d (write_rendered d s path r) next).files)) after
  then_adds s path r next paths after made later h kept =
      let split = and_then-none (write_rendered d s path r) next h in
      subst (λ (x : Ran d P). All (OnDisk t (d.read x.files)) after) (sym split.1)
        (later (write_rendered d s path r).files (subst (λ (x : Ran d P). x.error ≡ none) split.1 h)
          (write_rendered_adds s path r paths made split.0 kept))
