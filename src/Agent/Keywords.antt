-- ===== src/Agent/Keywords.antt =====
-- The word with which the statement behind a WITH begins, read one character at a time: an independent
-- description of what `scanTopLevel` in internal/agent/agent.go looks for.
pub mod Coded
pub mod Starters
use ltm.Prelude.{
  ℕ, zero, suc, ◌≤◌, ◌≡◌, refl, sym, ap, ◌∙◌, Bool, true, false, not, ◌&&◌, ◌||◌, List, [], ◌∷◌,
  ◌++◌, Text, codes, Option, none, some, ◌==◌, leb, any, arith, length, member, text_eq,
  if◌then◌else◌, inl, inr, Bool-cases,
}
use ltm.Go.Strings.{to_upper, upper}
use ltm.SqlText.Machine.{Mode, is_plain, next, plain}
use ltm.SqlText.Passes.{advance_passes, is_mark}
use ltm.SqlText.Skips.{length-advance}
use ltm.SqlText.Sql.{has_backquote, sql_next, sql_next-next}
use ltm.SqlText.{advance, next_depth}
use ltm.Agent.Scan.{
  add_starter, behind_word, is_ident_part, is_ident_start, length-behind_word, scan_from,
  scan_top_level, starter_words, word,
}

-- A character goes on with a word, begins one, or does neither.
pub data Reading : Type 0 where
  goes_on begins moves : Reading

module _ (step : Mode → ℕ → Text → Mode) (start part : ℕ → Bool) where
  unfoldable pub lexeme : Text → Text
  lexeme [] = []
  lexeme (c ∷ s) = if part c then c ∷ lexeme s else []

  abbrev pub statement_word : Text → Option Text
  statement_word w =
      if member (to_upper w)
        (codes "SELECT" ∷ codes "INSERT" ∷ codes "UPDATE" ∷ codes "DELETE" ∷ codes "REPLACE" ∷ [])
      then some (to_upper w)
      else none

  abbrev pub first_of : Option Text → Option Text → Option Text
  first_of none later = later
  first_of (some w) later = some w

  -- Words count in plain SQL outside parentheses; the flag says that the character before is in one.
  unfoldable pub reading : Mode → ℕ → Bool → ℕ → Reading
  reading m depth inside c =
      if is_plain m && depth == 0
      then (if inside && part c then goes_on else if start c then begins else moves)
      else moves

  abbrev pub depth_after : Mode → ℕ → ℕ → ℕ
  depth_after m depth c = if is_plain m then next_depth depth c else depth

  -- The first of these words outside quotes, brackets, comments and parentheses.
  unfoldable pub first_word : Mode → ℕ → Bool → Text → Option Text
  unfolding lexeme reading
  first_word m depth inside [] = none
  first_word m depth inside (c ∷ s) = elim (reading m depth inside c) [
    | goes_on ↦ first_word plain depth true s
    | begins ↦ first_of (statement_word (lexeme (c ∷ s))) (first_word plain depth true s)
    | moves ↦ first_word (step m c s) (depth_after m depth c) false s
  ]

  pub first_word-goes_on :
      (m : Mode) (depth : ℕ) (inside : Bool) (c : ℕ) (s : Text)
      → reading m depth inside c ≡ goes_on
      → first_word m depth inside (c ∷ s) ≡ first_word plain depth true s
  unfolding first_word
  first_word-goes_on m depth inside c s h = rw (first_word, h) refl

  pub first_word-begins :
      (m : Mode) (depth : ℕ) (inside : Bool) (c : ℕ) (s : Text)
      → reading m depth inside c ≡ begins
      → first_word m depth inside (c ∷ s)
        ≡ first_of (statement_word (lexeme (c ∷ s))) (first_word plain depth true s)
  unfolding first_word
  first_word-begins m depth inside c s h = rw (first_word, h) refl

  pub first_word-moves :
      (m : Mode) (depth : ℕ) (inside : Bool) (c : ℕ) (s : Text)
      → reading m depth inside c ≡ moves
      → first_word m depth inside (c ∷ s) ≡ first_word (step m c s) (depth_after m depth c) false s
  unfolding first_word
  first_word-moves m depth inside c s h = rw (first_word, h) refl

  pub first_word-nil : (m : Mode) (depth : ℕ) (inside : Bool) → first_word m depth inside [] ≡ none
  unfolding first_word
  first_word-nil m depth inside = refl

-- SQLite's identifiers: letters, digits, `_`, `$`, and every byte beyond ASCII.
abbrev pub sql_start : ℕ → Bool
sql_start c = is_ident_start c || leb 128 c

abbrev pub sql_part : ℕ → Bool
sql_part c = is_ident_part c || leb 128 c || c == b'$'

unfoldable pub main_word : Text → Option Text
unfolding first_word sql_next
main_word sql = first_word sql_next sql_start sql_part plain 0 false sql

-- A character that SQLite and the scan read alike.
abbrev pub is_common : ℕ → Bool
is_common c = not (leb 128 c) && not (c == b'$') && not (c == b'`')

-- The text is ASCII, and has neither a backquote nor a dollar sign.
abbrev pub is_simple : Text → Bool
is_simple [] = true
is_simple (c ∷ s) = is_common c && is_simple s

pub is_simple-backquote : (s : Text) → is_simple s ≡ true → has_backquote s ≡ false
is_simple-backquote [] h = refl
is_simple-backquote (c ∷ s) h = ground (arith, h, is_simple-backquote s)
