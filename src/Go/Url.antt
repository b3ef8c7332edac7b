-- ===== src/Go/Url.antt =====
-- Go's package net/url, as far as internal/storage/open.go uses it: the escaping of a path and of a
-- query's values, Values.Encode for the values of one key, and URL.String for a rooted path. A text is
-- its bytes.
pub mod Unescaped
use ltm.Prelude.{
  ℕ, ◌+◌, ◌-◌, ◌/◌, ◌%◌, ◌≡◌, refl, Bool, false, ◌&&◌, ◌||◌, List, [], ◌∷◌, ◌++◌, Text, codes, leb,
  ltb, ◌==◌, map, if◌then◌else◌,
}
use ltm.Go.Strings.{join, one_of}

abbrev within : ℕ → ℕ → ℕ → Bool
within lo hi c = leb lo c && leb c hi

-- The unreserved characters of RFC 3986.
unfoldable pub is_unreserved : ℕ → Bool
is_unreserved c =
    within b'a' b'z' c
    || within b'A' b'Z' c
    || within b'0' b'9' c
    || c == b'-'
    || c == b'_'
    || c == b'.'
    || c == b'~'

-- The reserved ones that stay in a path: `$&+,/:;=@`, and not `?`.
unfoldable pub stays_in_path : ℕ → Bool
unfolding is_unreserved
stays_in_path c =
    is_unreserved c
    || c == b'$'
    || c == b'&'
    || c == b'+'
    || c == b','
    || c == b'/'
    || c == b':'
    || c == b';'
    || c == b'='
    || c == b'@'

unfoldable pub hex : ℕ → ℕ
hex d = if ltb d 10 then b'0' + d else b'A' - 10 + d

abbrev pub percent : ℕ → Text
percent c = b'%' ∷ hex (c / 16) ∷ hex (c % 16) ∷ []

unfoldable pub escape_path_byte : ℕ → Text
unfolding stays_in_path
escape_path_byte c = if stays_in_path c then c ∷ [] else percent c

unfoldable pub escape_path : Text → Text
escape_path [] = []
escape_path (c ∷ s) = escape_path_byte c ++ escape_path s

-- QueryEscape.
unfoldable pub escape_query : Text → Text
unfolding is_unreserved
escape_query [] = []
escape_query (c ∷ s) =
    (if is_unreserved c then c ∷ [] else if c == 32 then b'+' ∷ [] else percent c) ++ escape_query s

-- Values.Encode.
unfoldable pub encode_values : Text → List Text → Text
unfolding escape_query join
encode_values key values =
    join (map (λ v. escape_query key ++ (codes "=" ++ escape_query v)) values) (codes "&")

-- `(&URL{Scheme: scheme, Path: path, RawQuery: query}).String()`.
unfoldable pub url_string : Text → Text → Text → Text
unfolding escape_path
url_string scheme path query = scheme ++ (codes "://" ++ (escape_path path ++ (codes "?" ++ query)))

escapes :
    url_string
      (codes "file")
      (codes "/a b?%")
      (encode_values (codes "k") (codes "x(1)" ∷ codes "y" ∷ []))
    ≡ codes "file:///a%20b%3F%25?k=x%281%29&k=y"
unfolding url_string encode_values escape_path_byte hex
escapes = refl
