-- ===== src/SqlText/Sql.antt =====
-- SQLite's lexical modes, as https://sqlite.org/lang_keywords.html describes them: those of the machine,
-- and identifiers between backquotes, which internal/storage/query.go and internal/agent/agent.go do not
-- tell apart.
use ltm.Prelude.{
  ℕ, ◌≡◌, refl, Bool, false, ◌&&◌, ◌||◌, [], ◌∷◌, Text, ◌==◌, any, arith, if◌then◌else◌,
}
use ltm.SqlText.Machine.{
  Mode, block, bracket, closing, is_plain, line, next, opening, plain, quoted, separated,
}

-- The mode behind the character `c`, with `s` still to come.
unfoldable pub sql_next : Mode → ℕ → Text → Mode
unfolding next
sql_next plain c s = if c == b'`' then quoted b'`' else next plain c s
sql_next m c s = next m c s

-- Some `;` stands outside quotes, brackets and comments with a rest behind it that passes the test.
unfoldable pub sql_separated : (Text → Bool) → Mode → Text → Bool
unfolding sql_next
sql_separated hit m [] = false
sql_separated hit m (c ∷ s) =
    (is_plain m && c == b';' && hit s) || sql_separated hit (sql_next m c s) s

abbrev pub has_backquote : Text → Bool
has_backquote = any (λ c. c == b'`')

pub sql_next-next :
    (m : Mode) (c : ℕ) (s : Text) → (c == b'`') ≡ false → sql_next m c s ≡ next m c s
unfolding sql_next
sql_next-next plain c s h = rw h refl
sql_next-next bracket c s h = refl
sql_next-next line c s h = refl
sql_next-next opening c s h = refl
sql_next-next block c s h = refl
sql_next-next closing c s h = refl
sql_next-next (quoted q) c s h = refl

-- On a text without a backquote these are the machine's modes.
pub sql_separated-separated :
    (hit : Text → Bool) (m : Mode) (s : Text)
    → has_backquote s ≡ false
    → sql_separated hit m s ≡ separated hit m s
unfolding sql_separated separated
sql_separated-separated hit m [] h = refl
sql_separated-separated hit m (c ∷ s) h =
    let none_here : (c == b'`') ≡ false = ground (arith, h) in
    let none_later : has_backquote s ≡ false = ground (arith, h) in
    rw (sql_next-next m c s none_here, sql_separated-separated hit (next m c s) s none_later) refl
