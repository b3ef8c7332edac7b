-- ===== src/Storage/Search/Literal.antt =====
-- A search term is matched literally, and the statement of a search has its arguments.
use ltm.Prelude.{
  ℕ, ◌≡◌, refl, ap, ◌∙◌, ℤ, Bool, true, false, ◌||◌, List, [], ◌∷◌, ◌++◌, Text, codes, Option, none,
  some, map, length, length-append, ◌==◌, arith, if◌then◌else◌, Bool-cases, inl, inr,
}
use ltm.Go.Strings.{join}
use ltm.Storage.Search.{escape_like, like_pattern, term_test, term_args, search_text, search_args}
use ltm.Storage.Select.Marks.{marks, marks-append}
use ltm.Storage.Select.{int, event_columns}

-- What a LIKE pattern with ESCAPE '\' is made of, by SQLite's documentation.
pub data Token : Type 0 where
  any_run any_one : Token
  literal : ℕ → Token

abbrev and_token : Token → Option (List Token) → Option (List Token)
and_token t none = none
and_token t (some ts) = some (t ∷ ts)

abbrev unescaped : ℕ → Token
unescaped c = if c == b'%' then any_run else if c == b'_' then any_one else literal c

-- The tokens of a pattern, behind an escape or not; none where an escape stands at its end.
unfoldable pub tokens : Bool → Text → Option (List Token)
tokens true [] = none
tokens false [] = some []
tokens true (c ∷ s) = and_token (literal c) (tokens false s)
tokens false (c ∷ s) = elim (c == b'\\') [
  | true ↦ tokens true s
  | false ↦ and_token (unescaped c) (tokens false s)
]

tokens-plain :
    (c : ℕ) (s : Text)
    → (c == b'\\' || c == b'%' || c == b'_') ≡ false
    → tokens false (c ∷ s) ≡ and_token (literal c) (tokens false s)
unfolding tokens
tokens-plain c s e = ground arith

tokens-escape_like :
    (s : Text) → tokens false (escape_like s ++ b'%' ∷ []) ≡ some (map literal s ++ any_run ∷ [])
unfolding tokens escape_like
tokens-escape_like [] = refl
tokens-escape_like (c ∷ s) = elim (Bool-cases (c == b'\\' || c == b'%' || c == b'_')) [
  | inl e ↦ rw e (ap (and_token (literal c)) (tokens-escape_like s))
  | inr e ↦ rw e (
      tokens-plain c (escape_like s ++ b'%' ∷ []) e
      ∙ ap (and_token (literal c)) (tokens-escape_like s))
]

-- For every term, the pattern of a search stands for any run of characters, then the term's own
-- characters and nothing else, then any run: no character of a term is a wildcard.
pub tokens-like_pattern :
    (term : Text)
    → tokens false (like_pattern term) ≡ some (any_run ∷ (map literal term ++ any_run ∷ []))
unfolding tokens
tokens-like_pattern term = ap (and_token any_run) (tokens-escape_like term)

marks_term : marks term_test ≡ 11
unfolding marks join
marks_term = refl

marks_term_and : marks (term_test ++ codes " AND ") ≡ 11
unfolding marks join
marks_term_and = refl

marks_select_where : marks (codes "SELECT " ++ event_columns ++ codes " FROM events WHERE ") ≡ 0
unfolding marks
marks_select_where = refl

marks_order : marks (codes " ORDER BY ts DESC, id DESC LIMIT ?") ≡ 1
unfolding marks
marks_order = refl

marks-terms :
    (terms : List Text)
    → marks (join (map (λ (t : Text). term_test) terms) (codes " AND ")) ≡ length (term_args terms)
unfolding join
marks-terms [] = unfold marks in refl
marks-terms (term ∷ []) = omega (arith, marks_term)
marks-terms (term ∷ next ∷ terms) =
    let rest = join (map (λ (t : Text). term_test) (next ∷ terms)) (codes " AND ") in
    omega (
      arith,
      marks-append (term_test ++ codes " AND ") rest,
      marks_term_and,
      marks-terms (next ∷ terms),
    )

-- The statement of every search has exactly as many `?` as there are arguments.
marks-search_text :
    (terms : List Text) (limit : ℤ) → marks (search_text terms) ≡ length (search_args terms limit)
unfolding search_text search_args
marks-search_text terms limit =
    let tests = join (map (λ (t : Text). term_test) terms) (codes " AND ") in
    omega (
      arith,
      marks-append (codes "SELECT " ++ event_columns ++ codes " FROM events WHERE ")
          (tests ++ codes " ORDER BY ts DESC, id DESC LIMIT ?"),
      marks_select_where,
      marks-append tests (codes " ORDER BY ts DESC, id DESC LIMIT ?"),
      marks_order,
      marks-terms terms,
      length-append (term_args terms) (int limit ∷ []),
    )
