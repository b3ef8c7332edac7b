-- ===== src/Agent/Scan.antt =====
-- `scanTopLevel`: the statement starters outside parentheses, and whether a separator was met.
use ltm.Prelude.{
  ℕ, zero, suc, ◌≤◌, ◌≡◌, refl, Bool, true, false, ◌&&◌, ◌||◌, List, [], ◌∷◌, ◌++◌, Text, codes,
  ◌==◌, leb, arith, length, member, if◌then◌else◌, inl, inr,
}
use ltm.Go.Strings.{to_upper, upper}
use ltm.SqlText.Machine.{plain, separated}
use ltm.SqlText.Skips.{separated-advance, length-advance}
use ltm.SqlText.{next_depth, advance}

unfoldable pub is_ident_start : ℕ → Bool
is_ident_start c = c == b'_' || (leb b'A' c && leb c b'Z') || (leb b'a' c && leb c b'z')

unfoldable pub is_ident_part : ℕ → Bool
unfolding is_ident_start
is_ident_part c = is_ident_start c || (leb b'0' c && leb c b'9')

-- The inner loop over an identifier: `sql[start:i]` and the text behind it.
unfoldable pub word : Text → Text
unfolding is_ident_part
word [] = []
word (c ∷ s) = if is_ident_part c then c ∷ word s else []

unfoldable pub behind_word : Text → Text
unfolding is_ident_part
behind_word [] = []
behind_word (c ∷ s) = if is_ident_part c then behind_word s else c ∷ s

abbrev pub starter_words : List Text
starter_words =
    codes "SELECT" ∷ codes "INSERT" ∷ codes "UPDATE" ∷ codes "DELETE" ∷ codes "REPLACE" ∷ []

unfoldable pub add_starter : List Text → Text → List Text
unfolding upper
add_starter starters w =
    if member (to_upper w) starter_words then starters ++ to_upper w ∷ [] else starters

pub record Scan : Type 0 where
  pub starters : List Text
  pub multi : Bool

-- The loop; each round moves on, so that the length of the text is enough fuel.
unfoldable pub scan_from : ℕ → ℕ → List Text → Text → Scan
scan_from zero depth starters s = record { starters = starters; multi = false }
scan_from (suc fuel) depth starters [] = record { starters = starters; multi = false }
scan_from (suc fuel) depth starters (c ∷ s) =
    let at_word = scan_from fuel depth (add_starter starters (word (c ∷ s))) (behind_word s) in
    let on = scan_from fuel (next_depth depth c) starters (advance c s) in
    if c == b';'
    then record { starters = starters; multi = true }
    else if depth == 0 && is_ident_start c
    then at_word
    else on

unfoldable pub scan_top_level : Text → Scan
unfolding scan_from is_ident_start word behind_word add_starter advance
scan_top_level sql = scan_from (length sql) 0 [] sql

separated-behind_word :
    (hit : Text → Bool) (s : Text) → separated hit plain s ≡ separated hit plain (behind_word s)
unfolding separated behind_word
separated-behind_word hit [] = refl
separated-behind_word hit (c ∷ s) = ground (arith, separated-behind_word hit s)

pub length-behind_word : (s : Text) → length (behind_word s) ≤ length s
unfolding behind_word
length-behind_word [] = omega arith
length-behind_word (c ∷ s) = ground (arith, length-behind_word s)

separated-ident :
    (hit : Text → Bool) (c : ℕ) (s : Text)
    → is_ident_start c ≡ true
    → separated hit plain (c ∷ s) ≡ separated hit plain s
unfolding separated is_ident_start
separated-ident hit c s h = ground arith

scan_from-separated :
    (hit : Text → Bool) (fuel depth : ℕ) (starters : List Text) (s : Text)
    → length s ≤ fuel
    → separated hit plain s ≡ true
    → (scan_from fuel depth starters s).multi ≡ true
unfolding scan_from
scan_from-separated hit zero depth starters [] le h = unfold separated in cc
scan_from-separated hit zero depth starters (c ∷ s) le h = absurd (omega arith)
scan_from-separated hit (suc fuel) depth starters [] le h = unfold separated in cc
scan_from-separated hit (suc fuel) depth starters (c ∷ s) le h =
    elim (separated-advance hit c s h) [
      | inl e ↦ ground arith
      | inr later ↦ ground (
        arith,
        scan_from-separated hit fuel (next_depth depth c) starters (advance c s)
            (omega (arith, length-advance c s)) later,
        scan_from-separated hit fuel depth (add_starter starters (word (c ∷ s))) (behind_word s)
            (omega (arith, length-behind_word s)),
        separated-behind_word hit s,
        separated-ident hit c s,
      )
    ]

-- Every separator that the lexical machine meets in plain SQL is found.
pub scan_top_level-separated :
    (hit : Text → Bool) (sql : Text)
    → separated hit plain sql ≡ true
    → (scan_top_level sql).multi ≡ true
unfolding scan_top_level
scan_top_level-separated hit sql h = scan_from-separated hit (length sql) 0 [] sql (omega arith) h
