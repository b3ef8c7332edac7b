-- ===== src/Storage/Search.antt =====
-- internal/storage/query.go: QueryText, escapeLike and normalizeTerms.
pub mod Literal
use ltm.Prelude.{
  ℤ, pos, Bool, true, false, not, List, [], ◌∷◌, ◌++◌, Text, codes, Option, none, some, leb_ℤ, map,
  keep, is_empty, ◌==◌, ◌||◌, if◌then◌else◌, Result, ok, err,
}
use ltm.Go.Strings.{join, to_lower, trim_space}
use ltm.Storage.Event.{Event, Error}
use ltm.Storage.Select.{Arg, int, text, event_columns}
use ltm.Storage.Store.{Rows, Metadata, query_events}

abbrev pub text_search_columns : List Text
text_search_columns =
    codes "category"
    ∷ codes "action"
    ∷ codes "comm"
    ∷ codes "exe"
    ∷ codes "path"
    ∷ codes "old_path"
    ∷ codes "local_addr"
    ∷ codes "remote_addr"
    ∷ codes "remote_host"
    ∷ codes "container_id"
    ∷ codes "cgroup_path"
    ∷ []

-- The replacer reads one byte at a time, since its old strings are single bytes.
unfoldable pub escape_like : Text → Text
escape_like [] = []
escape_like (c ∷ s) =
    if c == b'\\' || c == b'%' || c == b'_' then b'\\' ∷ c ∷ escape_like s else c ∷ escape_like s

unfoldable pub normalize_terms : List Text → List Text
normalize_terms terms =
    keep (λ term. not (is_empty term)) (map (λ term. to_lower (trim_space term)) terms)

abbrev pub like_pattern : Text → Text
like_pattern term = b'%' ∷ (escape_like term ++ b'%' ∷ [])

abbrev pub column_test : Text → Text
column_test c = codes "lower(" ++ c ++ codes ") LIKE ? ESCAPE '\\'"

abbrev pub term_test : Text
term_test = codes "(" ++ join (map column_test text_search_columns) (codes " OR ") ++ codes ")"

abbrev pub term_args : List Text → List Arg
term_args [] = []
term_args (term ∷ terms) =
    map (λ (c : Text). text (like_pattern term)) text_search_columns ++ term_args terms

unfoldable pub search_text : List Text → Text
search_text terms =
    codes "SELECT "
    ++ event_columns
    ++ codes " FROM events WHERE "
    ++ join (map (λ (t : Text). term_test) terms) (codes " AND ")
    ++ codes " ORDER BY ts DESC, id DESC LIMIT ?"

unfoldable pub search_args : List Text → ℤ → List Arg
search_args terms limit = term_args terms ++ int limit ∷ []

abbrev pub search_limit : ℤ → ℤ
search_limit limit = if leb_ℤ limit (pos 0) then pos 200 else limit

module _ (unmarshal : Text → Option Metadata) (db : Rows) where
  abbrev pub search_terms : List Text → ℤ → Result Error (List Event)
  search_terms [] limit = ok []
  search_terms (term ∷ terms) limit =
      query_events unmarshal db (search_text (term ∷ terms)) (search_args (term ∷ terms) limit)

  -- QueryText.
  unfoldable pub search : List Text → ℤ → Result Error (List Event)
  search terms limit = search_terms (normalize_terms terms) (search_limit limit)
