-- ===== src/Storage/Statements.antt =====
-- internal/storage/query.go: `hasMultipleStatements`, the guard of RawSQL.
use ltm.Prelude.{
  ℕ, zero, suc, ◌≤◌, ◌≡◌, refl, Bool, true, false, not, ◌&&◌, [], ◌∷◌, Text, ◌==◌, arith, length,
  is_empty, if◌then◌else◌, inl, inr, Bool-cases, ◌∙◌, sym,
}
use ltm.Go.Strings.{trim_space}
use ltm.SqlText.Machine.{plain, separated}
use ltm.SqlText.Skips.{separated-advance, separated_of-advance, length-advance}
use ltm.SqlText.Sql.{has_backquote, sql_separated, sql_separated-separated}
use ltm.SqlText.{next_depth, advance}

-- `strings.TrimSpace(rest) != ""`.
unfoldable pub is_code : Text → Bool
unfolding trim_space
is_code rest = not (is_empty (trim_space rest))

-- The loop; each round moves on, so that the length of the text is enough fuel.
unfoldable pub find_second : ℕ → ℕ → Text → Bool
find_second zero depth s = false
find_second (suc fuel) depth [] = false
find_second (suc fuel) depth (c ∷ s) =
    let rest = find_second fuel (next_depth depth c) (advance c s) in
    if c == b';' && is_code s then true else rest

unfoldable pub has_multiple_statements : Text → Bool
unfolding find_second is_code advance
has_multiple_statements sql = find_second (length sql) 0 sql

find_second_of-separated :
    (fuel depth : ℕ) (s : Text)
    → length s ≤ fuel
    → separated is_code plain s ≡ true
    → find_second fuel depth s ≡ true
unfolding find_second
find_second_of-separated zero depth [] le h = unfold separated in cc
find_second_of-separated zero depth (c ∷ s) le h = absurd (omega arith)
find_second_of-separated (suc fuel) depth [] le h = unfold separated in cc
find_second_of-separated (suc fuel) depth (c ∷ s) le h = elim (separated-advance is_code c s h) [
  | inl e ↦ ground arith
  | inr later ↦ ground (
    arith,
    find_second_of-separated fuel (next_depth depth c) (advance c s)
        (omega (arith, length-advance c s)) later,
  )
]

separated-here :
    (c : ℕ) (s : Text) → (c == b';' && is_code s) ≡ true → separated is_code plain (c ∷ s) ≡ true
unfolding separated
separated-here c s e = rw e

is_code-nil : is_code [] ≡ false
unfolding is_code
is_code-nil = refl

separated_of-find_second :
    (fuel depth : ℕ) (s : Text) → find_second fuel depth s ≡ true → separated is_code plain s ≡ true
unfolding find_second
separated_of-find_second zero depth s h = cc
separated_of-find_second (suc fuel) depth [] h = cc
separated_of-find_second (suc fuel) depth (c ∷ s) h = elim (Bool-cases (c == b';' && is_code s)) [
  | inl e ↦ separated-here c s e
  | inr e ↦
      separated_of-advance is_code c s is_code-nil
        (separated_of-find_second fuel (next_depth depth c) (advance c s) (rw e at h))
]

-- The walk with skips finds what a machine finds that reads one character at a time and tells the same
-- modes apart.
pub has_multiple_statements-coded :
    (sql : Text) → has_multiple_statements sql ≡ separated is_code plain sql
unfolding has_multiple_statements
has_multiple_statements-coded sql = elim (Bool-cases (separated is_code plain sql)) [
  | inl e ↦ find_second_of-separated (length sql) 0 sql (omega arith) e ∙ sym e
  | inr e ↦ elim (Bool-cases (has_multiple_statements sql)) [
    | inl m ↦ cc (separated_of-find_second (length sql) 0 sql m)
    | inr m ↦ m ∙ sym e
  ]
]

-- A text without a backquote is taken for several statements exactly when SQLite's lexical modes, read
-- one character at a time, have a `;` outside quotes, brackets and comments with more than white space
-- behind it. A text with a backquote can be told apart wrongly.
pub has_multiple_statements-separated :
    (sql : Text)
    → has_backquote sql ≡ false
    → has_multiple_statements sql ≡ sql_separated is_code plain sql
has_multiple_statements-separated sql h =
    has_multiple_statements-coded sql ∙ sym (sql_separated-separated is_code plain sql h)
