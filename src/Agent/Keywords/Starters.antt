-- ===== src/Agent/Keywords/Starters.antt =====
-- The first starter that `scanTopLevel` in internal/agent/agent.go finds is the word that is read.
use ltm.Prelude.{
  ℕ, zero, suc, ◌≤◌, ◌≡◌, refl, sym, ap, ◌∙◌, Bool, true, false, ◌&&◌, List, [], ◌∷◌, ◌++◌, Text,
  some, ◌==◌, arith, length, member, inl, inr, Bool-cases,
}
use ltm.Go.Strings.{to_upper}
use ltm.SqlText.Machine.{Mode, next, plain}
use ltm.SqlText.Skips.{length-advance}
use ltm.SqlText.Sql.{sql_next, sql_next-next}
use ltm.SqlText.{advance, next_depth}
use ltm.Agent.Scan.{
  add_starter, behind_word, is_ident_part, is_ident_start, length-behind_word, scan_from,
  scan_top_level, starter_words, word,
}
use ltm.Agent.Keywords.{
  Reading, begins, depth_after, first_of, first_word, first_word-begins, first_word-goes_on,
  first_word-moves, first_word-nil, goes_on, is_common, is_simple, lexeme, main_word, moves,
  reading, sql_part, sql_start, statement_word,
}
use ltm.Agent.Keywords.Coded.{
  coded, coded_reading, coded-advance, coded-behind_word, coded-nil, coded-plain, first,
  lexeme-word,
}

add_starter-keeps :
    (w : Text) (ws : List Text) (v : Text)
    → (more : List Text) × (add_starter (w ∷ ws) v ≡ w ∷ more)
unfolding add_starter
add_starter-keeps w ws v = elim (Bool-cases (member (to_upper v) starter_words)) [
  | inl e ↦ (ws ++ to_upper v ∷ [], rw e refl)
  | inr e ↦ (ws, rw e refl)
]

module _ (fuel depth : ℕ) (starters : List Text) (c : ℕ) (s : Text)
    (same : (c == b';') ≡ false) where
  scan_from-word :
      (depth == 0 && is_ident_start c) ≡ true
      → scan_from (suc fuel) depth starters (c ∷ s)
        ≡ scan_from fuel depth (add_starter starters (word (c ∷ s))) (behind_word s)
  unfolding scan_from
  scan_from-word h = rw (same, h) refl

  scan_from-on :
      (depth == 0 && is_ident_start c) ≡ false
      → scan_from (suc fuel) depth starters (c ∷ s)
        ≡ scan_from fuel (next_depth depth c) starters (advance c s)
  unfolding scan_from
  scan_from-on h = rw (same, h) refl

scan_from-separator :
    (fuel depth : ℕ) (starters : List Text) (c : ℕ) (s : Text)
    → (c == b';') ≡ true
    → scan_from (suc fuel) depth starters (c ∷ s) ≡ record { starters = starters; multi = true }
unfolding scan_from
scan_from-separator fuel depth starters c s h = rw h refl

-- A starter that has been found stays the first one.
scan_from-first :
    (fuel depth : ℕ) (w : Text) (ws : List Text) (s : Text)
    → first (scan_from fuel depth (w ∷ ws) s).starters ≡ some w
unfolding scan_from
scan_from-first zero depth w ws s = refl
scan_from-first (suc fuel) depth w ws [] = refl
scan_from-first (suc fuel) depth w ws (c ∷ s) = elim (Bool-cases (c == b';')) [
  | inl e ↦ ap (λ r. first r.starters) (scan_from-separator fuel depth (w ∷ ws) c s e)
  | inr e ↦ elim (Bool-cases (depth == 0 && is_ident_start c)) [
    | inl i ↦
        let (more, kept) = add_starter-keeps w ws (word (c ∷ s)) in
        ap (λ r. first r.starters) (scan_from-word fuel depth (w ∷ ws) c s e i)
        ∙ ap (λ xs. first (scan_from fuel depth xs (behind_word s)).starters) kept
        ∙ scan_from-first fuel depth w more (behind_word s)
    | inr i ↦
        ap (λ r. first r.starters) (scan_from-on fuel depth (w ∷ ws) c s e i)
        ∙ scan_from-first fuel (next_depth depth c) w ws (advance c s)
  ]
]

-- Where no separator is met, the first starter of the scan is the word that is read.
scan_from-coded :
    (fuel depth : ℕ) (s : Text)
    → length s ≤ fuel
    → (scan_from fuel depth [] s).multi ≡ false
    → first (scan_from fuel depth [] s).starters ≡ coded plain depth false s
scan_from-coded zero depth [] le h = unfold scan_from in sym (coded-nil depth false plain)
scan_from-coded zero depth (c ∷ s) le h = absurd (omega arith)
scan_from-coded (suc fuel) depth [] le h = unfold scan_from in sym (coded-nil depth false plain)
scan_from-coded (suc fuel) depth (c ∷ s) le h = elim (Bool-cases (c == b';')) [
  | inl e ↦ absurd (cc (h, ap (λ r. r.multi) (scan_from-separator fuel depth [] c s e)))
  | inr e ↦ elim (Bool-cases (depth == 0 && is_ident_start c)) [
    | inl i ↦ at_word e i (λ t. scan_from-coded fuel depth t)
    | inr i ↦
        let on = scan_from-on fuel depth [] c s e i in
        ap (λ r. first r.starters) on
        ∙ scan_from-coded fuel (next_depth depth c) (advance c s)
            (omega (arith, le, length-advance c s)) (sym (ap (λ r. r.multi) on) ∙ h)
        ∙ coded-advance (next_depth depth c) c s
        ∙ sym (coded-plain depth c s i)
  ]
]
  where
    at_word :
        (c == b';') ≡ false
        → (depth == 0 && is_ident_start c) ≡ true
        → ((t : Text)
            → length t ≤ fuel
            → (scan_from fuel depth [] t).multi ≡ false
            → first (scan_from fuel depth [] t).starters ≡ coded plain depth false t)
        → first (scan_from (suc fuel) depth [] (c ∷ s)).starters ≡ coded plain depth false (c ∷ s)
    at_word e i again =
        let on = scan_from-word fuel depth [] c s e i in
        let outside : depth ≡ 0 = ground (arith, i) in
        let begun : coded plain depth false (c ∷ s)
            ≡ first_of next is_ident_start is_ident_part
                (statement_word next is_ident_start is_ident_part (word (c ∷ s)))
                (coded plain depth true s) =
          first_word-begins next is_ident_start is_ident_part plain depth false c s
            (unfold reading in ground (arith, i))
          ∙ ap
              (λ v.
                first_of next is_ident_start is_ident_part
                  (statement_word next is_ident_start is_ident_part v) (coded plain depth true s))
              (lexeme-word (c ∷ s)) in
        let later : (coded plain depth true s ≡ coded plain depth false (behind_word s)) =
          ap (λ n. coded plain n true s) outside
          ∙ coded-behind_word s
          ∙ ap (λ n. coded plain n false (behind_word s)) (sym outside) in
        elim (Bool-cases (member (to_upper (word (c ∷ s))) starter_words)) [
          | inl m ↦
              let added : add_starter [] (word (c ∷ s)) ≡ to_upper (word (c ∷ s)) ∷ [] =
                unfold add_starter in rw m refl in
              ap (λ r. first r.starters) on
              ∙ ap (λ xs. first (scan_from fuel depth xs (behind_word s)).starters) added
              ∙ scan_from-first fuel depth (to_upper (word (c ∷ s))) [] (behind_word s)
              ∙ sym (begun ∙ rw m refl)
          | inr m ↦
              let none_added : add_starter [] (word (c ∷ s)) ≡ [] =
                unfold add_starter in rw m refl in
              let rest = ap (λ xs. scan_from fuel depth xs (behind_word s)) none_added in
              ap (λ r. first r.starters) (on ∙ rest)
              ∙ again (behind_word s) (omega (arith, le, length-behind_word s))
                  (sym (ap (λ r. r.multi) (on ∙ rest)) ∙ h)
              ∙ sym later
              ∙ sym (begun ∙ rw m refl)
        ]

-- A simple text is read alike by SQLite's modes and identifiers and by the scan's.
reading-simple :
    (m : Mode) (depth : ℕ) (inside : Bool) (c : ℕ)
    → is_common c ≡ true
    → reading sql_next sql_start sql_part m depth inside c ≡ coded_reading m depth inside c
unfolding reading
reading-simple m depth inside c h =
    let start : sql_start c ≡ is_ident_start c = ground (arith, h) in
    let part : sql_part c ≡ is_ident_part c = ground (arith, h) in rw (start, part) refl

lexeme-simple :
    (s : Text)
    → is_simple s ≡ true
    → lexeme sql_next sql_start sql_part s ≡ lexeme next is_ident_start is_ident_part s
unfolding lexeme
lexeme-simple [] h = refl
lexeme-simple (c ∷ s) h =
    let part : sql_part c ≡ is_ident_part c = ground (arith, h) in
    rw (part, lexeme-simple s (ground (arith, h))) refl

first_word-simple :
    (m : Mode) (depth : ℕ) (inside : Bool) (s : Text)
    → is_simple s ≡ true
    → first_word sql_next sql_start sql_part m depth inside s ≡ coded m depth inside s
first_word-simple m depth inside [] h =
    first_word-nil sql_next sql_start sql_part m depth inside ∙ sym (coded-nil depth inside m)
first_word-simple m depth inside (c ∷ s) h =
    by_reading (coded_reading m depth inside c) refl (λ n d b. first_word-simple n d b s later)
  where
    later : is_simple s ≡ true
    later = ground (arith, h)

    same : reading sql_next sql_start sql_part m depth inside c ≡ coded_reading m depth inside c
    same = reading-simple m depth inside c (ground (arith, h))

    by_reading :
        (r : Reading)
        → coded_reading m depth inside c ≡ r
        → ((n : Mode) (d : ℕ) (b : Bool)
            → first_word sql_next sql_start sql_part n d b s ≡ coded n d b s)
        → first_word sql_next sql_start sql_part m depth inside (c ∷ s)
          ≡ coded m depth inside (c ∷ s)
    by_reading goes_on e again =
        first_word-goes_on sql_next sql_start sql_part m depth inside c s (same ∙ e)
        ∙ again plain depth true
        ∙ sym (first_word-goes_on next is_ident_start is_ident_part m depth inside c s e)
    by_reading begins e again =
        first_word-begins sql_next sql_start sql_part m depth inside c s (same ∙ e)
        ∙ rw (lexeme-simple (c ∷ s) h, again plain depth true) refl
        ∙ sym (first_word-begins next is_ident_start is_ident_part m depth inside c s e)
    by_reading moves e again =
        let step : sql_next m c s ≡ next m c s = sql_next-next m c s (ground (arith, h)) in
        first_word-moves sql_next sql_start sql_part m depth inside c s (same ∙ e)
        ∙ ap
            (λ n.
              first_word sql_next sql_start sql_part n
                (depth_after sql_next sql_start sql_part m depth c) false s)
            step
        ∙ again (next m c s) (depth_after next is_ident_start is_ident_part m depth c) false
        ∙ sym (first_word-moves next is_ident_start is_ident_part m depth inside c s e)

-- The first starter of the scan is the word with which the main statement begins.
pub main_word-scan_top_level :
    (sql : Text)
    → is_simple sql ≡ true
    → (scan_top_level sql).multi ≡ false
    → main_word sql ≡ first (scan_top_level sql).starters
unfolding main_word scan_top_level
main_word-scan_top_level sql simple h =
    first_word-simple plain 0 false sql simple
    ∙ sym (scan_from-coded (length sql) 0 sql (omega arith) h)
