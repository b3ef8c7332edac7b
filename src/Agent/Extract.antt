-- ===== src/Agent/Extract.antt =====
-- `ExtractSQL`: the statement inside an agent's output, behind fences and prose.
use mathlib.Core.Path.{subst}
use ltm.Prelude.{
  ℕ, ◌≡◌, refl, Bool, true, false, not, ◌+◌, ◌&&◌, ◌||◌, [], ◌∷◌, Text, Option, none, some, codes,
  ◌==◌, leb, arith, is_empty, if◌then◌else◌, text_eq,
}
use ltm.Go.Strings.{to_lower, trim_space, cut, trim_suffix}
use ltm.Agent.Keywords.{is_simple}
use ltm.Agent.Scan.{is_ident_part}
use ltm.Agent.Validate.{Refusal, no_select, validate_read_only_sql, IsReadOnly, validate-IsReadOnly}

-- The letters that `(?i)` takes for an ASCII letter in `select` and `with`.
unfoldable pub fold : ℕ → ℕ
fold c = if leb b'A' c && leb c b'Z' then c + 32 else if c == 0x17f then b's' else c

abbrev at_boundary : Text → Bool
at_boundary [] = true
at_boundary (c ∷ s) = not (is_ident_part c)

-- The text begins with the word, in any case, and with no word character behind it.
unfoldable pub begins_word : Text → Text → Bool
begins_word [] s = at_boundary s
begins_word (w ∷ ws) [] = false
begins_word (w ∷ ws) (c ∷ s) = w == fold c && begins_word ws s

-- reSQLStart.FindStringIndex: `s[loc[0]:]`; the flag says that a word character stands before.
unfoldable pub find_sql_start : Bool → Text → Option Text
find_sql_start inside [] = none
find_sql_start inside (c ∷ s) =
    let later = find_sql_start (is_ident_part c) s in
    if not inside && (begins_word (codes "select") (c ∷ s) || begins_word (codes "with") (c ∷ s))
    then some (c ∷ s)
    else later

abbrev fence : Text
fence = codes "```"

-- A language tag on the fence's own line is left out.
unfoldable pub drop_tag : Text → Option (Text × Text) → Text
drop_tag rest none = rest
drop_tag rest (some (tag_line, body)) =
    let tag = to_lower (trim_space tag_line) in
    if is_empty tag || text_eq tag (codes "sql") || text_eq tag (codes "sqlite") then body else rest

abbrev before_fence : Text → Option (Text × Text) → Text
before_fence s none = s
before_fence s (some (fenced, _)) = trim_space fenced

abbrev open_fence : Text → Option (Text × Text) → Text
open_fence s none = s
open_fence s (some (_, rest)) = before_fence s (cut (drop_tag rest (cut rest (codes "\n"))) fence)

unfoldable pub unfenced : Text → Text
unfenced s = open_fence s (cut s fence)

pub data Extracted : Type 0 where
  ok : Text → Extracted
  err : Refusal → Extracted

unfoldable pub trimmed_statement : Text → Text
trimmed_statement found =
    trim_space (trim_suffix (trim_space (trim_suffix (trim_space found) fence)) (codes ";"))

abbrev checked : Text → Option Refusal → Extracted
checked sql none = ok sql
checked sql (some why) = err why

abbrev from_start : Option Text → Extracted
from_start none = err no_select
from_start (some found) =
    checked (trimmed_statement found) (validate_read_only_sql (trimmed_statement found))

unfoldable pub extract_sql : Text → Extracted
extract_sql out = from_start (find_sql_start false (unfenced (trim_space out)))

checked-eq-ok :
    (s : Text) (refusal : Option Refusal) {sql : Text}
    → checked s refusal ≡ ok sql
    → (refusal ≡ none) × (s ≡ sql)
checked-eq-ok s none h = (refl, ground arith)
checked-eq-ok s (some why) h = absurd (cc)

from_start-validated :
    (found : Option Text) {sql : Text}
    → from_start found ≡ ok sql
    → validate_read_only_sql sql ≡ none
from_start-validated none h = absurd (cc)
from_start-validated (some found) h =
    let parts = checked-eq-ok (trimmed_statement found) _ h in
    subst (λ s. validate_read_only_sql s ≡ none) parts.1 parts.0

-- Whatever ExtractSQL returns has passed its guard.
pub extract_sql-validated :
    (out : Text) {sql : Text} → extract_sql out ≡ ok sql → validate_read_only_sql sql ≡ none
unfolding extract_sql
extract_sql-validated out h =
    from_start-validated (find_sql_start false (unfenced (trim_space out))) h

-- If what ExtractSQL returns is ASCII without a backquote or a dollar sign, it is a single statement
-- that reads: in SQLite's lexical modes it has no `;` outside quotes, brackets and comments, and it
-- begins with SELECT, or it begins with WITH and the first of SELECT, INSERT, UPDATE, DELETE and
-- REPLACE outside quotes, brackets, comments and parentheses is SELECT.
pub extract_sql-IsReadOnly :
    (out : Text) {sql : Text} → is_simple sql ≡ true → extract_sql out ≡ ok sql → IsReadOnly sql
extract_sql-IsReadOnly out {sql} simple h =
    validate-IsReadOnly sql simple (extract_sql-validated out h)
