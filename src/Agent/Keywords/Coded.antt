-- ===== src/Agent/Keywords/Coded.antt =====
-- The same reading with the modes and identifiers that internal/agent/agent.go tells apart.
use ltm.Prelude.{
  ℕ, ◌≤◌, ◌≡◌, refl, sym, ap, ◌∙◌, Bool, true, false, ◌&&◌, List, [], ◌∷◌, Text, Option, none, some,
  ◌==◌, arith, length, text_eq, if◌then◌else◌, inl, inr, Bool-cases,
}
use ltm.SqlText.Machine.{Mode, is_plain, next, plain}
use ltm.SqlText.Passes.{advance_passes, is_mark}
use ltm.SqlText.{advance, next_depth}
use ltm.Agent.Scan.{behind_word, is_ident_part, is_ident_start, word}
use ltm.Agent.Keywords.{
  Reading, first_word, first_word-begins, first_word-goes_on, first_word-moves, first_word-nil,
  lexeme, reading, statement_word,
}

abbrev pub coded : Mode → ℕ → Bool → Text → Option Text
coded = first_word next is_ident_start is_ident_part

abbrev pub coded_reading : Mode → ℕ → Bool → ℕ → Reading
coded_reading = reading next is_ident_start is_ident_part

-- Outside words at depth 0 the reading moves on by one character.
pub coded-plain :
    (depth c : ℕ) (s : Text)
    → (depth == 0 && is_ident_start c) ≡ false
    → coded plain depth false (c ∷ s) ≡ coded (next plain c s) (next_depth depth c) false s
coded-plain depth c s h =
    first_word-moves next is_ident_start is_ident_part plain depth false c s
      (unfold reading in ground (arith, h))

coded-quoted :
    (depth : ℕ) (m : Mode) (c : ℕ) (s : Text)
    → is_plain m ≡ false
    → coded m depth false (c ∷ s) ≡ coded (next m c s) depth false s
coded-quoted depth m c s h =
    first_word-moves next is_ident_start is_ident_part m depth false c s
      (unfold reading in rw h refl)
    ∙ ap (λ b. coded (next m c s) (if b then next_depth depth c else depth) false s) h

coded-mark :
    (depth c : ℕ) (s : Text)
    → is_mark c ≡ true
    → coded plain depth false (c ∷ s) ≡ coded (next plain c s) depth false s
coded-mark depth c s h =
    let stays : next_depth depth c ≡ depth = ground (arith, h) in
    coded-plain depth c s (unfold is_ident_start in ground (arith, h))
    ∙ ap (λ n. coded (next plain c s) n false s) stays

pub coded-nil : (depth : ℕ) (b : Bool) (m : Mode) → coded m depth b [] ≡ none
coded-nil depth b m = first_word-nil next is_ident_start is_ident_part m depth b

-- No statement begins with a word of one character.
short : (w : Text) → length w ≤ 1 → statement_word next is_ident_start is_ident_part w ≡ none
unfolding text_eq
short [] h = refl
short (c ∷ []) h = ground arith
short (c ∷ d ∷ w) h = absurd (omega arith)

coded-last : (depth c : ℕ) → coded plain depth false (c ∷ []) ≡ none
coded-last depth c = elim (Bool-cases (depth == 0 && is_ident_start c)) [
  | inl e ↦
      first_word-begins next is_ident_start is_ident_part plain depth false c []
        (unfold reading in ground (arith, e))
      ∙ rw
          (short (lexeme next is_ident_start is_ident_part (c ∷ []))
            (unfold lexeme in ground arith))
          (coded-nil depth true plain)
  | inr e ↦ coded-plain depth c [] e ∙ coded-nil _ false _
]

pub coded-advance :
    (depth c : ℕ) (s : Text)
    → coded plain depth false (advance c s) ≡ coded (next plain c s) depth false s
coded-advance depth c s =
    advance_passes (λ m t. coded m depth false t) (coded-quoted depth) (coded-mark depth)
      (λ m. coded-nil depth false m ∙ sym (coded-nil depth false plain))
      (λ x. coded-last depth x ∙ sym (coded-nil depth false plain)) c s

-- Inside a word the reading goes on behind it.
pub coded-behind_word : (s : Text) → coded plain 0 true s ≡ coded plain 0 false (behind_word s)
unfolding behind_word
coded-behind_word [] = coded-nil 0 true plain ∙ sym (coded-nil 0 false plain)
coded-behind_word (c ∷ s) = elim (Bool-cases (is_ident_part c)) [
  | inl e ↦ rw e (
      first_word-goes_on next is_ident_start is_ident_part plain 0 true c s
        (unfold reading in ground (arith, e))
      ∙ coded-behind_word s)
  | inr e ↦
      let first_off : is_ident_start c ≡ false = unfold is_ident_part in ground (arith, e) in
      rw e (
        first_word-moves next is_ident_start is_ident_part plain 0 true c s
          (unfold reading in ground (arith, e, first_off))
        ∙ sym (coded-plain 0 c s (ground (arith, first_off))))
]

pub lexeme-word : (s : Text) → lexeme next is_ident_start is_ident_part s ≡ word s
unfolding lexeme word
lexeme-word [] = refl
lexeme-word (c ∷ s) = ap (λ xs. if is_ident_part c then c ∷ xs else []) (lexeme-word s)

abbrev pub first : List Text → Option Text
first [] = none
first (w ∷ ws) = some w
