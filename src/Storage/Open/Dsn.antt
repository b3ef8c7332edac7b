-- ===== src/Storage/Open/Dsn.antt =====
-- The DSN of a path reads back as that path and those pragmas, whatever the path holds.
use ltm.Prelude.{
  ◌<◌, ◌≡◌, refl, Bool, true, false, List, [], ◌∷◌, ◌++◌, Text, codes, member, text_eq, Option,
  none, some, All, any, map, ◌==◌, arith,
}
use ltm.Go.Strings.{cut, split, split_from, strip_prefix}
use ltm.Go.Url.Unescaped.{decode, any-escape_path, ends_path, unescape, unescape-escape_path}
use ltm.Go.Url.{encode_values, escape_path, escape_query, hex, url_string}
use ltm.Storage.Open.{dsn, pragmas}

-- A query's pairs, each decoded.
abbrev pub pair_of : Option (Text × Text) → Option Text × Option Text
pair_of none = (none, none)
pair_of (some (key, value)) = (unescape key, unescape value)

abbrev pub pairs : Text → List (Option Text × Option Text)
pairs query = map (λ p. pair_of (cut p (codes "="))) (split query b'&')

abbrev pub pragma_pair : Text → Option Text × Option Text
pragma_pair v = (some (codes "_pragma"), some v)

-- What a reader of URLs finds: the path before the first `?`, with no fragment in it, and the pairs of
-- the query behind, with query_only just where the store is to be read only.
pub record Reads (d path : Text) (read_only : Bool) (values : List Text) : Type 0 where
  pub head : Text
  pub query : Text
  pub parted : cut d (codes "?") ≡ some (codes "file://" ++ head, query)
  pub unmarked : any ends_path head ≡ false
  pub same_path : unescape head ≡ some path
  pub same_values : pairs query ≡ map pragma_pair values
  pub guarded : member (codes "query_only(true)") values ≡ read_only

cut-unmarked :
    (s query : Text)
    → any ends_path s ≡ false
    → cut (s ++ b'?' ∷ query) (codes "?") ≡ some (s, query)
unfolding cut strip_prefix
cut-unmarked [] query h = refl
cut-unmarked (c ∷ s) query h =
    let other : (b'?' == c) ≡ false = ground arith in
    let rest = cut-unmarked s query (ground arith) in rw (cut, other) (rw rest refl)

-- For every path of bytes, `?`, `#`, `%` and `&` included, the DSN names that path, and what it sets is
-- exactly the pragmas, query_only among them just where the store is to be read only.
pub dsn-Reads :
    (path : Text) (read_only : Bool)
    → All (λ c. c < 256) path
    → Reads (dsn path read_only) path read_only (pragmas read_only)
unfolding dsn url_string
dsn-Reads path read_only bytes = record {
  head = escape_path path;
  query = encode_values (codes "_pragma") (pragmas read_only);
  parted =
      cut-unmarked (codes "file://" ++ escape_path path)
        (encode_values (codes "_pragma") (pragmas read_only)) (any-escape_path path bytes);
  unmarked = any-escape_path path bytes;
  same_path = unescape-escape_path path bytes;
  same_values = values read_only;
  guarded = guards read_only;
}
  where
    values :
        (b : Bool)
        → pairs (encode_values (codes "_pragma") (pragmas b)) ≡ map pragma_pair (pragmas b)
    values true =
        unfold encode_values escape_query hex split split_from cut strip_prefix unescape decode in
        refl
    values false =
        unfold encode_values escape_query hex split split_from cut strip_prefix unescape decode in
        refl

    guards : (b : Bool) → member (codes "query_only(true)") (pragmas b) ≡ b
    guards true = unfold text_eq in refl
    guards false = unfold text_eq in refl
