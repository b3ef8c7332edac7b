-- ===== src/Query/Words.antt =====
-- internal/query/engine.go: the regular expressions, written out, and the words of a question.
use ltm.Prelude.{
  ℕ, ◌+◌, Bool, true, not, ◌&&◌, ◌||◌, List, [], ◌∷◌, ◌++◌, Text, codes, Option, none, some,
  is_empty, leb, ◌==◌, member, if◌then◌else◌,
}
use ltm.Go.Strings.{cut, fields, one_of, to_lower, trim, trim_space}

-- `(?i)` on ASCII letters, which are the only ones in the expressions.
abbrev pub ascii_fold : ℕ → ℕ
ascii_fold c = if leb b'A' c && leb c b'Z' then c + 32 else c

-- What stands behind a word, in any case.
unfoldable pub strip_folded : Text → Text → Option Text
strip_folded [] s = some s
strip_folded (w ∷ ws) [] = none
strip_folded (w ∷ ws) (c ∷ s) = if w == ascii_fold c then strip_folded ws s else none

-- `\d`, `\s` and `\w`.
abbrev pub is_digit : ℕ → Bool
is_digit c = leb b'0' c && leb c b'9'

abbrev pub is_blank : ℕ → Bool
is_blank c = c == 9 || c == 10 || c == 12 || c == 13 || c == 32

abbrev pub is_word : ℕ → Bool
is_word c = is_digit c || leb b'a' c && leb c b'z' || leb b'A' c && leb c b'Z' || c == b'_'

-- `\b` behind a word character.
abbrev pub at_end : Text → Bool
at_end [] = true
at_end (c ∷ s) = not (is_word c)

-- The characters of a class at the front, and the rest.
unfoldable pub span : (ℕ → Bool) → Text → Text × Text
span p [] = ([], [])
span p (c ∷ s) = let rest = span p s in if p c then (c ∷ rest.0, rest.1) else ([], c ∷ s)

-- `(\d+)\b`.
abbrev pub digits_end : Text × Text → Option Text
digits_end (digits, rest) = if not (is_empty digits) && at_end rest then some digits else none

-- `\s+(\d+)\b`.
abbrev pub blank_digits : Text × Text → Option Text
blank_digits (blanks, rest) = if is_empty blanks then none else digits_end (span is_digit rest)

-- `pid\s+(\d+)\b` and `port\s+(\d+)\b` at this place.
abbrev pub number_behind : Option Text → Option Text
number_behind none = none
number_behind (some rest) = blank_digits (span is_blank rest)

unfoldable pub number_here : Text → Text → Option Text
unfolding strip_folded span
number_here word s = number_behind (strip_folded word s)

abbrev pub first_of : Option Text → Option Text → Option Text
first_of none later = later
first_of (some found) later = some found

-- rePid and rePort: the group of the leftmost match. The flag says that a word character stands before.
unfoldable pub find_number : Text → Bool → Text → Option Text
unfolding number_here
find_number word inside [] = none
find_number word inside (c ∷ s) =
    let later = find_number word (is_word c) s in
    first_of (if inside then none else number_here word (c ∷ s)) later

-- `\d+` and `\d+\.`.
abbrev dot_rest : Text × Text → Option (Text × Text)
dot_rest ([], rest) = none
dot_rest (digits, []) = none
dot_rest (digits, c ∷ rest) = if c == b'.' then some (digits ++ b'.' ∷ [], rest) else none

abbrev joined : Text → Option Text → Option Text
joined front none = none
joined front (some back) = some (front ++ back)

abbrev then_ip : (Text → Option Text) → Option (Text × Text) → Option Text
then_ip more none = none
then_ip more (some (front, rest)) = joined front (more rest)

-- `(\d+\.\d+\.\d+\.\d+)\b` at this place.
unfoldable pub ip_here : Text → Option Text
unfolding span
ip_here s =
    then_ip
      (λ s1.
        then_ip (λ s2. then_ip (λ s3. digits_end (span is_digit s3)) (dot_rest (span is_digit s2)))
          (dot_rest (span is_digit s1)))
      (dot_rest (span is_digit s))

-- reIP: the leftmost match.
unfoldable pub find_ip : Bool → Text → Option Text
unfolding ip_here
find_ip inside [] = none
find_ip inside (c ∷ s) =
    let later = find_ip (is_word c) s in first_of (if inside then none else ip_here (c ∷ s)) later

-- `(.+?)\??$`: a question mark at the end is left out, unless it is all; `.` is no newline.
unfoldable pub drop_mark : Text → Text
drop_mark [] = []
drop_mark (c ∷ []) = if c == b'?' then [] else c ∷ []
drop_mark (c ∷ d ∷ s) = c ∷ drop_mark (d ∷ s)

abbrev or_mark : Text → Text
or_mark [] = b'?' ∷ []
or_mark s = s

abbrev pub captured : Option Text → Option Text
captured none = none
captured (some []) = none
captured (some (c ∷ s)) = if one_of (c ∷ s) 10 then none else some (or_mark (drop_mark (c ∷ s)))

-- reWhoModified: the group of the match.
unfoldable pub who_modified : Text → Option Text
unfolding strip_folded drop_mark one_of
who_modified q = captured (strip_folded (codes "who modified ") q)

-- `stop`.
abbrev pub stop_words : List Text
stop_words =
    codes "what"
    ∷ codes "changed"
    ∷ codes "before"
    ∷ codes "after"
    ∷ codes "the"
    ∷ codes "restarted"
    ∷ codes "restart"
    ∷ codes "was"
    ∷ codes "did"
    ∷ codes "when"
    ∷ codes "why"
    ∷ codes "process"
    ∷ codes "service"
    ∷ codes "a"
    ∷ codes "is"
    ∷ []

abbrev pub marks : Text
marks = codes "?.,'\""

-- A word that is left when the marks around it are gone, and that is no filler.
abbrev pub is_name : Text → Bool
is_name w = not (is_empty w) && not (member w stop_words)

-- The loop over the words.
unfoldable pub first_name : List Text → Text
unfolding trim
first_name [] = []
first_name (w ∷ ws) =
    let rest = first_name ws in if is_name (trim w marks) then trim w marks else rest

unfoldable pub restart_comm : Text → Text
unfolding first_name fields
restart_comm q = first_name (fields (to_lower q))

-- `rest[:i]` at the first space.
unfoldable pub before_space : Text → Text
before_space [] = []
before_space (c ∷ s) = let rest = before_space s in if c == 32 then [] else c ∷ rest

abbrev pub host_behind : Option (Text × Text) → Text
host_behind none = []
host_behind (some (before, rest)) = before_space (trim (trim_space rest) marks)

unfoldable pub connection_host : Text → Text
unfolding cut trim trim_space before_space
connection_host q = host_behind (cut (to_lower q) (codes "connected to "))
