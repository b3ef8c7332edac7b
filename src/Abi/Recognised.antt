-- ===== src/Abi/Recognised.antt =====
-- The headers of internal/abi/gen/main.go as splitGeneratedHeader reads them.
use ltm.Prelude.{
  ℕ, suc, Bool, true, false, [], ◌∷◌, ◌++◌, Text, Option-cases, inl, inr, codes, some, ◌==◌, Result,
  ok, ◌≡◌, refl, sym, ap, ◌∙◌, any, any-append, arith, append_assoc,
}
use ltm.Go.Strings.{
  cut, is_space, strip_prefix, trim_func, trim_left, trim_right, trim_space, has_prefix,
}
use ltm.Abi.Stamp.{
  Tools, Panic, go_header, c_header, prepend_go_header, prepend_c_header, split_n, read_header,
  split_generated_header, hash_prefix,
}

abbrev pub newline : ℕ → Bool
newline c = c == 10

-- A text of one line.
abbrev pub OneLine : Text → Type 0
OneLine s = any newline s ≡ false

-- A digest in hexadecimal has no white space.
abbrev pub Solid : Text → Type 0
Solid s = any is_space s ≡ false

any-imply :
    (p q : ℕ → Bool) (s : Text)
    → ((c : ℕ) → p c ≡ true → q c ≡ true)
    → any q s ≡ false
    → any p s ≡ false
any-imply p q [] h e = refl
any-imply p q (c ∷ s) h e = ground (arith, h c, any-imply p q s h)

newline-is_space : (c : ℕ) → newline c ≡ true → is_space c ≡ true
unfolding is_space
newline-is_space c h = ground arith

cut-newline : (a b : Text) → OneLine a → cut (a ++ 10 ∷ b) (10 ∷ []) ≡ some (a, b)
unfolding cut strip_prefix
cut-newline [] b h = refl
cut-newline (c ∷ a) b h = ground (arith, cut-newline a b)

split_n-newline :
    (n : ℕ) (a b : Text) → OneLine a → split_n 10 (suc n) (a ++ 10 ∷ b) ≡ a ∷ split_n 10 n b
unfolding split_n
split_n-newline n a b h = rw (cut-newline a b h, split_n) refl

trim_left-none : (p : ℕ → Bool) (s : Text) → any p s ≡ false → trim_left p s ≡ s
unfolding trim_left
trim_left-none p [] h = refl
trim_left-none p (c ∷ s) h = ground arith

trim_right-none : (p : ℕ → Bool) (s : Text) → any p s ≡ false → trim_right p s ≡ s
unfolding trim_right
trim_right-none p [] h = refl
trim_right-none p (c ∷ s) h = ground (arith, trim_right-none p s)

trim_space-Solid : (s : Text) → Solid s → trim_space s ≡ s
unfolding trim_space trim_func
trim_space-Solid s h =
    ap (trim_right is_space) (trim_left-none is_space s h) ∙ trim_right-none is_space s h

read_header-digest :
    (line digest body : Text)
    → Solid digest
    → read_header (line ∷ (hash_prefix ++ digest) ∷ [] ∷ body ∷ []) ≡ some (digest, body)
unfolding read_header has_prefix strip_prefix trim_space trim_func trim_left trim_right
read_header-digest line digest body h = ap (λ d. some (d, body)) (trim_space-Solid digest h)

-- A line, the digest's line, a blank line and the body.
split_generated_header-parts :
    (line digest body : Text)
    → OneLine line
    → Solid digest
    → split_generated_header (line ++ 10 ∷ (hash_prefix ++ (digest ++ 10 ∷ 10 ∷ body)))
      ≡ some (digest, body)
unfolding split_generated_header
split_generated_header-parts line digest body h k =
    ap read_header (
      split_n-newline 2 line (hash_prefix ++ (digest ++ 10 ∷ 10 ∷ body)) h
      ∙ ap (◌∷◌ line) (
          ap (split_n 10 2) (sym (append_assoc hash_prefix digest (10 ∷ 10 ∷ body)))
          ∙ split_n-newline 1 (hash_prefix ++ digest) (10 ∷ body)
              (any-imply newline is_space digest newline-is_space k)
          ∙ ap (◌∷◌ (hash_prefix ++ digest)) (split_n-newline 0 [] body refl)))
    ∙ read_header-digest line digest body k

-- The first line of a header.
one_line :
    (left source right : Text)
    → OneLine left
    → OneLine source
    → OneLine right
    → OneLine (left ++ source ++ right)
one_line left source right hl h hr =
    ground (arith, any-append newline left source, any-append newline (left ++ source) right)

regroup :
    (first right digest body : Text)
    → first ++ (right ++ 10 ∷ hash_prefix) ++ digest ++ 10 ∷ 10 ∷ [] ++ body
      ≡ (first ++ right) ++ 10 ∷ (hash_prefix ++ (digest ++ 10 ∷ 10 ∷ body))
regroup first right digest body = simp append_assoc

split_generated_header-lines :
    (left source right digest body : Text)
    → OneLine left
    → OneLine source
    → OneLine right
    → Solid digest
    → split_generated_header
        (left ++ source ++ (right ++ 10 ∷ hash_prefix) ++ digest ++ 10 ∷ 10 ∷ [] ++ body)
      ≡ some (digest, body)
split_generated_header-lines left source right digest body hl h hr k =
    ap split_generated_header (regroup (left ++ source) right digest body)
    ∙ split_generated_header-parts (left ++ source ++ right) digest body
        (one_line left source right hl h hr) k

pub split_generated_header-go_header :
    (source digest body : Text)
    → OneLine source
    → Solid digest
    → split_generated_header (go_header source digest ++ body) ≡ some (digest, body)
unfolding go_header
split_generated_header-go_header source digest body h k =
    split_generated_header-lines (codes "// Code generated by internal/abi/gen from ") source
      (codes "; DO NOT EDIT.") digest body refl h refl k

pub split_generated_header-c_header :
    (source digest body : Text)
    → OneLine source
    → Solid digest
    → split_generated_header (c_header source digest ++ body) ≡ some (digest, body)
unfolding c_header
split_generated_header-c_header source digest body h k =
    split_generated_header-lines (codes "/* Code generated by internal/abi/gen from ") source
      (codes "; DO NOT EDIT. */") digest body refl h refl k

-- A content whose header has the digest of its body.
abbrev pub Intact : Tools → Text → Type 0
Intact t content = (body : Text) × (split_generated_header content ≡ some (t.hash body, body))

-- The digests have no white space.
abbrev pub HexDigests : Tools → Type 0
HexDigests t = (body : Text) → Solid (t.hash body)

-- Both headers, put before a body and read back, give the digest of the body and the body: the
-- formatted one for Go, the body itself for C. The source's name is one line, and the digests have no
-- white space.
pub split_generated_header-prepend :
    (t : Tools) (source body formatted : Text)
    → HexDigests t
    → OneLine source
    → t.format_source body ≡ some formatted
    → ((content : Text) × (prepend_go_header t source body ≡ ok content)
        × (split_generated_header content ≡ some (t.hash formatted, formatted)))
      × (split_generated_header (prepend_c_header t source body) ≡ some (t.hash body, body))
unfolding prepend_go_header prepend_c_header
split_generated_header-prepend t source body formatted hex h e = (
  (
    go_header source (t.hash formatted) ++ formatted,
    rw (e, prepend_go_header) refl,
    split_generated_header-go_header source (t.hash formatted) formatted h (hex formatted),
  ),
  split_generated_header-c_header source (t.hash body) body h (hex body),
)

pub ok-injective : {r : Result Panic Text} {a b : Text} → r ≡ ok a → r ≡ ok b → a ≡ b
ok-injective e f = cc (e, f)

agree :
    (t : Tools) (source body formatted : Text) {content : Text}
    → ((c : Text) × (prepend_go_header t source body ≡ ok c)
        × (split_generated_header c ≡ some (t.hash formatted, formatted)))
    → prepend_go_header t source body ≡ ok content
    → Intact t content
agree t source body formatted (c, made, read) e =
    (formatted, cc (ap split_generated_header (ok-injective made e), read))

-- What the generator puts before Go code is intact.
pub prepend_go_header-Intact :
    (t : Tools) (source body : Text) {content : Text}
    → HexDigests t
    → OneLine source
    → prepend_go_header t source body ≡ ok content
    → Intact t content
unfolding prepend_go_header
prepend_go_header-Intact t source body hex h e = elim (Option-cases (t.format_source body)) [
  | inl e0 ↦ absurd (cc (rw (e0, prepend_go_header) at e))
  | inr made ↦
      agree t source body made.0
        (split_generated_header-prepend t source body made.0 hex h made.1).0 e
]
