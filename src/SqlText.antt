-- ===== src/SqlText.antt =====
-- The walk over an SQL text that internal/storage/query.go (`hasMultipleStatements`) and
-- internal/agent/agent.go (`scanTopLevel`) share: both hold the same `skipQuoted` and `skipUntil`
-- and the same cases of the switch. A position `i` is modelled by the rest of the text, `sql[i:]`.
pub mod Machine
pub mod Skips
pub mod Sql
pub mod Passes
use ltm.Prelude.{ℕ, ◌+◌, ◌-◌, Bool, true, false, ◌&&◌, List, [], ◌∷◌, Text, ◌==◌, if◌then◌else◌}

-- The next character is `c`.
abbrev pub starts : ℕ → Text → Bool
starts c [] = false
starts c (d ∷ s) = d == c

-- Behind the closing quote; a doubled quote does not close.
unfoldable pub skip_quoted : ℕ → Text → Text
skip_quoted quote [] = []
skip_quoted quote (c ∷ []) = []
skip_quoted quote (c ∷ d ∷ s) = elim (c == quote) [
  | true ↦ elim (d == quote) [ true ↦ skip_quoted quote s | false ↦ d ∷ s ]
  | false ↦ skip_quoted quote (d ∷ s)
]

unfoldable pub skip_until : ℕ → Text → Text
skip_until end [] = []
skip_until end (c ∷ s) = if c == end then s else skip_until end s

-- The loop over a line comment stops at the newline.
unfoldable pub skip_line : Text → Text
skip_line [] = []
skip_line (c ∷ s) = if c == b'\n' then c ∷ s else skip_line s

-- The loop over a block comment. A comment that is not closed leaves its last character.
unfoldable pub skip_comment : Text → Text
skip_comment [] = []
skip_comment (c ∷ []) = c ∷ []
skip_comment (c ∷ d ∷ s) = if c == b'*' && d == b'/' then s else skip_comment (d ∷ s)

abbrev pub tail : Text → Text
tail [] = []
tail (c ∷ s) = s

abbrev pub next_depth : ℕ → ℕ → ℕ
next_depth depth c = if c == b'(' then depth + 1 else if c == b')' then depth - 1 else depth

-- The cases of the switch that only move on, at the character `c` with `s` behind it.
unfoldable pub advance : ℕ → Text → Text
unfolding skip_quoted skip_until skip_line skip_comment
advance c s =
    if c == b'\''
    then skip_quoted b'\'' s
    else if c == b'"'
    then skip_quoted b'"' s
    else if c == b'['
    then skip_until b']' s
    else if c == b'-' && starts b'-' s
    then skip_line (c ∷ s)
    else if c == b'/' && starts b'*' s
    then skip_comment (tail s)
    else s
