-- ===== src/SqlText/Machine.antt =====
-- The lexical modes that the walk tells apart, as a machine that reads one character at a time. SQLite
-- has one more (Sql).
use ltm.Prelude.{ℕ, Bool, true, false, ◌&&◌, ◌||◌, [], ◌∷◌, Text, ◌==◌, if◌then◌else◌}

pub data Mode : Type 0 where
  plain bracket line opening block closing : Mode
  quoted : ℕ → Mode

abbrev ahead : ℕ → Text → Bool
ahead c [] = false
ahead c (d ∷ s) = d == c

-- The mode behind the character `c`, with `s` still to come.
unfoldable pub next : Mode → ℕ → Text → Mode
next plain c s =
    if c == b'\'' || c == b'"'
    then quoted c
    else if c == b'['
    then bracket
    else if c == b'-' && ahead b'-' s
    then line
    else if c == b'/' && ahead b'*' s
    then opening
    else plain
next bracket c s = if c == b']' then plain else bracket
next line c s = if c == b'\n' then plain else line
next opening c s = block
next block c s = if c == b'*' && ahead b'/' s then closing else block
next closing c s = plain
next (quoted q) c s = if c == q then plain else quoted q

abbrev pub is_plain : Mode → Bool
is_plain plain = true
is_plain _ = false

-- Some `;` stands in plain SQL with a rest behind it that passes the test.
unfoldable pub separated : (Text → Bool) → Mode → Text → Bool
unfolding next
separated hit m [] = false
separated hit m (c ∷ s) = (is_plain m && c == b';' && hit s) || separated hit (next m c s) s
