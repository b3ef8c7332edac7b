-- ===== src/SqlText/Skips.antt =====
-- Each skip of the walk leads where the machine is in plain SQL again.
use native.Mathlib.Nat.{le_trans}
use ltm.Prelude.{
  ℕ, ◌≤◌, ◌≡◌, refl, ◌⊎◌, ◌==◌, ◌&&◌, if◌then◌else◌, inl, inr, Bool, true, false, ◌&&◌, [], ◌∷◌,
  Text, ◌==◌, arith, length, Bool-cases,
}
use ltm.SqlText.Machine.{plain, bracket, line, opening, block, quoted, next, separated}
use ltm.SqlText.{skip_quoted, skip_until, skip_line, skip_comment, advance, tail, starts}

abbrev IsQuote : ℕ → Type 0
IsQuote q = (q ≡ b'\'') ⊎ (q ≡ b'"')

module _ (hit : Text → Bool) where
  separated-skip_quoted :
      (q : ℕ) (s : Text)
      → IsQuote q
      → separated hit plain (skip_quoted q s) ≡ separated hit (quoted q) s
  unfolding separated skip_quoted
  separated-skip_quoted q [] h = refl
  separated-skip_quoted q (c ∷ []) h = ground arith
  separated-skip_quoted q (c ∷ d ∷ s) h =
      ground (arith, separated-skip_quoted q s h, separated-skip_quoted q (d ∷ s) h)

  separated-skip_until :
      (s : Text) → separated hit plain (skip_until b']' s) ≡ separated hit bracket s
  unfolding separated skip_until
  separated-skip_until [] = refl
  separated-skip_until (c ∷ s) = ground (arith, separated-skip_until s)

  separated-skip_line : (s : Text) → separated hit plain (skip_line s) ≡ separated hit line s
  unfolding separated skip_line
  separated-skip_line [] = refl
  separated-skip_line (c ∷ s) = ground (arith, separated-skip_line s)

  -- An open comment leaves its last character, which can only add a separator.
  separated-skip_comment :
      (s : Text) → separated hit block s ≡ true → separated hit plain (skip_comment s) ≡ true
  unfolding separated skip_comment
  separated-skip_comment [] h = h
  separated-skip_comment (c ∷ []) h = ground arith
  separated-skip_comment (c ∷ d ∷ s) h = ground (arith, separated-skip_comment (d ∷ s))

  separated_of-skip_comment :
      (s : Text)
      → hit [] ≡ false
      → separated hit plain (skip_comment s) ≡ true
      → separated hit block s ≡ true
  unfolding separated skip_comment
  separated_of-skip_comment [] e h = h
  separated_of-skip_comment (c ∷ []) e h = ground arith
  separated_of-skip_comment (c ∷ d ∷ s) e h = ground (arith, separated_of-skip_comment (d ∷ s) e)

  separated-opening : (s : Text) → separated hit opening s ≡ separated hit block (tail s)
  unfolding separated
  separated-opening [] = refl
  separated-opening (c ∷ s) = ground arith

  separated-next :
      (c : ℕ) (s : Text)
      → separated hit (next plain c s) s ≡ true
      → separated hit plain (advance c s) ≡ true
  unfolding advance next skip_line
  separated-next c [] h = unfold separated in ground arith
  separated-next c (d ∷ s) h = ground (
    arith,
    separated-skip_quoted b'\'' (d ∷ s) (inl refl),
    separated-skip_quoted b'"' (d ∷ s) (inr refl),
    separated-skip_until (d ∷ s),
    separated-skip_line (d ∷ s),
    separated-skip_comment s,
    separated-opening (d ∷ s),
  )

  separated_of-next :
      (c : ℕ) (s : Text)
      → hit [] ≡ false
      → separated hit plain (advance c s) ≡ true
      → separated hit (next plain c s) s ≡ true
  unfolding advance next skip_line
  separated_of-next c [] e h = unfold separated in ground arith
  separated_of-next c (d ∷ s) e h = ground (
    arith,
    separated-skip_quoted b'\'' (d ∷ s) (inl refl),
    separated-skip_quoted b'"' (d ∷ s) (inr refl),
    separated-skip_until (d ∷ s),
    separated-skip_line (d ∷ s),
    separated_of-skip_comment s e,
    separated-opening (d ∷ s),
  )

  -- Moving on loses no separator behind the character.
  pub separated-advance :
      (c : ℕ) (s : Text)
      → separated hit plain (c ∷ s) ≡ true
      → ((c ≡ b';') × (hit s ≡ true)) ⊎ (separated hit plain (advance c s) ≡ true)
  separated-advance c s h = elim (Bool-cases (c == b';' && hit s)) [
    | inl e ↦ inl (ground arith)
    | inr e ↦ inr (separated-next c s (unfold separated in rw e at h))
  ]

  -- Where the rest of a closing `;` does not count, moving on adds none either.
  pub separated_of-advance :
      (c : ℕ) (s : Text)
      → hit [] ≡ false
      → separated hit plain (advance c s) ≡ true
      → separated hit plain (c ∷ s) ≡ true
  separated_of-advance c s e h =
      let later = separated_of-next c s e h in unfold separated in ground (arith, later)

length-skip_quoted : (q : ℕ) (s : Text) → length (skip_quoted q s) ≤ length s
unfolding skip_quoted
length-skip_quoted q [] = omega arith
length-skip_quoted q (c ∷ []) = omega arith
length-skip_quoted q (c ∷ d ∷ s) =
    ground (arith, length-skip_quoted q s, length-skip_quoted q (d ∷ s))

length-skip_until : (q : ℕ) (s : Text) → length (skip_until q s) ≤ length s
unfolding skip_until
length-skip_until q [] = omega arith
length-skip_until q (c ∷ s) = ground (arith, length-skip_until q s)

length-skip_line : (s : Text) → length (skip_line s) ≤ length s
unfolding skip_line
length-skip_line [] = omega arith
length-skip_line (c ∷ s) = ground (arith, length-skip_line s)

length-skip_comment : (s : Text) → length (skip_comment s) ≤ length s
unfolding skip_comment
length-skip_comment [] = omega arith
length-skip_comment (c ∷ []) = omega arith
length-skip_comment (c ∷ d ∷ s) = ground (arith, length-skip_comment (d ∷ s))

length-skip_dash : (c : ℕ) (s : Text) → (c == b'-') ≡ true → length (skip_line (c ∷ s)) ≤ length s
unfolding skip_line
length-skip_dash c s h = ground (arith, length-skip_line s)

length-tail : (s : Text) → length (tail s) ≤ length s
length-tail [] = omega arith
length-tail (c ∷ s) = omega arith

length-if :
    (b : Bool) (n : ℕ) (s t : Text)
    → (b ≡ true → length s ≤ n)
    → length t ≤ n
    → length (if b then s else t) ≤ n
length-if true n s t hs ht = hs refl
length-if false n s t hs ht = ht

-- Every step of the walk moves forward.
pub length-advance : (c : ℕ) (s : Text) → length (advance c s) ≤ length s
unfolding advance
length-advance c s =
    length-if (c == b'\'') (length s) _ _ (λ _. length-skip_quoted b'\'' s)
      (length-if (c == b'"') (length s) _ _ (λ _. length-skip_quoted b'"' s)
        (length-if (c == b'[') (length s) _ _ (λ _. length-skip_until b']' s)
          (length-if (c == b'-' && starts b'-' s) (length s) _ _
            (λ e. length-skip_dash c s (ground arith))
            (length-if (c == b'/' && starts b'*' s) (length s) _ _
              (λ _. le_trans (length-skip_comment (tail s)) (length-tail s)) (omega arith)))))
