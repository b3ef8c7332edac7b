-- ===== src/SqlText/Passes.antt =====
-- What a reading of SQL that only looks at plain SQL makes of the walk's skips: nothing is lost.
use ltm.Prelude.{
  ℕ, ◌≡◌, refl, sym, ap, ◌∙◌, ◌==◌, ◌&&◌, ◌||◌, inl, inr, Bool, true, false, [], ◌∷◌, Text, arith,
  Bool-cases,
}
use ltm.SqlText.Machine.{
  Mode, block, bracket, closing, is_plain, line, next, opening, plain, quoted,
}
use ltm.SqlText.{advance, skip_comment, skip_line, skip_quoted, skip_until, starts, tail}

-- The characters at which a walk looks for quotes, brackets and comments, and the end of a line.
abbrev pub is_mark : ℕ → Bool
is_mark c = c == b'\'' || c == b'"' || c == b'[' || c == b'-' || c == b'/' || c == b'\n'

module _ {X : Type 0} (f : Mode → Text → X)
    (skips : (m : Mode) (c : ℕ) (s : Text) → is_plain m ≡ false → f m (c ∷ s) ≡ f (next m c s) s)
    (marks : (c : ℕ) (s : Text) → is_mark c ≡ true → f plain (c ∷ s) ≡ f (next plain c s) s)
    (ends : (m : Mode) → f m [] ≡ f plain []) (last : (c : ℕ) → f plain (c ∷ []) ≡ f plain []) where
  quoted_passes :
      (q : ℕ) (s : Text)
      → (q == b'\'' || q == b'"') ≡ true
      → f plain (skip_quoted q s) ≡ f (quoted q) s
  unfolding skip_quoted next
  quoted_passes q [] h = sym (ends (quoted q))
  quoted_passes q (c ∷ []) h = sym (skips (quoted q) c [] refl ∙ ends _)
  quoted_passes q (c ∷ d ∷ s) h = elim (Bool-cases (c == q)) [
    | inl e ↦ elim (Bool-cases (d == q)) [
      | inl i ↦
          let same : d ≡ q = ground (arith, i) in
          let opens : next plain d s ≡ quoted q = unfold next in ground (arith, same, h) in
          rw (skip_quoted, e, i)
            (quoted_passes q s h
              ∙ sym (
                  skips (quoted q) c (d ∷ s) refl
                  ∙ rw e (marks d s (ground (arith, same, h)) ∙ ap (λ m. f m s) opens)))
      | inr i ↦ rw (skip_quoted, e, i) (sym (skips (quoted q) c (d ∷ s) refl ∙ rw e refl))
    ]
    | inr e ↦
        rw (skip_quoted, e)
          (quoted_passes q (d ∷ s) h ∙ sym (skips (quoted q) c (d ∷ s) refl ∙ rw e refl))
  ]

  bracket_passes : (s : Text) → f plain (skip_until b']' s) ≡ f bracket s
  unfolding skip_until next
  bracket_passes [] = sym (ends bracket)
  bracket_passes (c ∷ s) = elim (Bool-cases (c == b']')) [
    | inl e ↦ rw e (sym (skips bracket c s refl ∙ rw e refl))
    | inr e ↦ rw e (bracket_passes s ∙ sym (skips bracket c s refl ∙ rw e refl))
  ]

  line_passes : (s : Text) → f plain (skip_line s) ≡ f line s
  unfolding skip_line next
  line_passes [] = sym (ends line)
  line_passes (c ∷ s) = elim (Bool-cases (c == b'\n')) [
    | inl e ↦
        let stays : next plain c s ≡ plain = unfold next in ground (arith, e) in
        rw e (
          marks c s (ground (arith, e))
          ∙ ap (λ m. f m s) stays
          ∙ sym (skips line c s refl ∙ rw e refl))
    | inr e ↦ rw e (line_passes s ∙ sym (skips line c s refl ∙ rw e refl))
  ]

  comment_passes : (s : Text) → f plain (skip_comment s) ≡ f block s
  unfolding skip_comment next
  comment_passes [] = sym (ends block)
  comment_passes (c ∷ []) = last c ∙ sym (skips block c [] refl ∙ ends _)
  comment_passes (c ∷ d ∷ s) = elim (Bool-cases (c == b'*' && d == b'/')) [
    | inl e ↦ rw e (sym (skips block c (d ∷ s) refl ∙ rw e (skips closing d s refl)))
    | inr e ↦ rw e (comment_passes (d ∷ s) ∙ sym (skips block c (d ∷ s) refl ∙ rw e refl))
  ]

  opening_passes : (s : Text) → f block (tail s) ≡ f opening s
  unfolding next
  opening_passes [] = ends block ∙ sym (ends opening)
  opening_passes (c ∷ s) = sym (skips opening c s refl)

  dashes_pass : (c : ℕ) (s : Text) → (c == b'-') ≡ true → f plain (skip_line (c ∷ s)) ≡ f line s
  dashes_pass c s h =
      let stays : next line c s ≡ line = unfold next in ground (arith, h) in
      line_passes (c ∷ s) ∙ skips line c s refl ∙ ap (λ m. f m s) stays

  -- Moving on leads where the machine, one character further, goes on in plain SQL.
  pub advance_passes : (c : ℕ) (s : Text) → f plain (advance c s) ≡ f (next plain c s) s
  unfolding advance next
  advance_passes c s = elim (Bool-cases (c == b'\'')) [
    | inl e ↦
        let same : c ≡ b'\'' = ground (arith, e) in
        rw e (quoted_passes b'\'' s refl ∙ ap (λ q. f (quoted q) s) (sym same))
    | inr e₁ ↦ elim (Bool-cases (c == b'"')) [
      | inl e ↦
          let same : c ≡ b'"' = ground (arith, e) in
          rw (e₁, e) (quoted_passes b'"' s refl ∙ ap (λ q. f (quoted q) s) (sym same))
      | inr e₂ ↦ elim (Bool-cases (c == b'[')) [
        | inl e ↦ rw (e₁, e₂, e) (bracket_passes s)
        | inr e₃ ↦ elim (Bool-cases (c == b'-' && starts b'-' s)) [
          | inl e ↦ rw (e₁, e₂, e₃, e) (dashes_pass c s (ground (arith, e)))
          | inr e₄ ↦ elim (Bool-cases (c == b'/' && starts b'*' s)) [
            | inl e ↦ rw (e₁, e₂, e₃, e₄, e) (comment_passes (tail s) ∙ opening_passes s)
            | inr e ↦ rw (e₁, e₂, e₃, e₄, e) refl
          ]
        ]
      ]
    ]
  ]
