-- ===== src/Go/Url/Unescaped.antt =====
-- What a reader of an escaped path or query value decodes, and that escaping is undone by it.
use ltm.Prelude.{
  ℕ, ◌+◌, ◌-◌, ◌*◌, ◌/◌, ◌%◌, ◌<◌, ◌≡◌, refl, ap, ◌∙◌, Bool, true, false, ◌&&◌, ◌||◌, [], ◌∷◌, ◌++◌,
  Text, Option, none, some, leb, ◌==◌, All, any, arith, Bool-cases, inl, inr, if◌then◌else◌,
}
use ltm.Go.Url.{escape_path, escape_path_byte, hex, is_unreserved, percent, stays_in_path}

abbrev pub unhex : ℕ → Option ℕ
unhex c =
    if leb b'0' c && leb c b'9'
    then some (c - b'0')
    else if leb b'A' c && leb c b'F'
    then some (c - b'A' + 10)
    else none

-- Within a text, behind a `%`, or behind its first digit.
pub data Decoding : Type 0 where
  plain behind_percent : Decoding
  behind_digit : ℕ → Decoding

abbrev onto : ℕ → Option Text → Option Text
onto c none = none
onto c (some s) = some (c ∷ s)

-- Percent-decoding; `none` is a malformed escape.
unfoldable pub decode : Decoding → Text → Option Text
decode plain [] = some []
decode behind_percent [] = none
decode (behind_digit h) [] = none
decode plain (c ∷ s) = elim (c == b'%') [
  | true ↦ decode behind_percent s
  | false ↦ onto c (decode plain s)
]
decode behind_percent (c ∷ s) = elim (unhex c) [ none ↦ none | some h ↦ decode (behind_digit h) s ]
decode (behind_digit h) (c ∷ s) = elim (unhex c) [
  | none ↦ none
  | some l ↦ onto (16 * h + l) (decode plain s)
]

unfoldable pub unescape : Text → Option Text
unfolding decode
unescape s = decode plain s

-- A byte that would end the path: the marks of a query and of a fragment.
abbrev pub ends_path : ℕ → Bool
ends_path c = c == b'?' || c == b'#'

unhex-hex : (d : ℕ) → d < 16 → unhex (hex d) ≡ some d
unfolding hex
unhex-hex d h = ground arith

hex_in_path : (d : ℕ) → d < 16 → ends_path (hex d) ≡ false
unfolding hex
hex_in_path d h = ground arith

decode-percent :
    (c : ℕ) (s : Text) → c < 256 → decode plain (percent c ++ s) ≡ onto c (decode plain s)
unfolding decode
decode-percent c s h =
    let high : unhex (hex (c / 16)) ≡ some (c / 16) = unhex-hex (c / 16) (omega arith) in
    let low : unhex (hex (c % 16)) ≡ some (c % 16) = unhex-hex (c % 16) (omega arith) in
    let whole : 16 * (c / 16) + c % 16 ≡ c = omega arith in ground (arith, high, low, whole)

decode-escape_path_byte :
    (c : ℕ) (s : Text) → c < 256 → decode plain (escape_path_byte c ++ s) ≡ onto c (decode plain s)
unfolding escape_path_byte
decode-escape_path_byte c s h = elim (Bool-cases (stays_in_path c)) [
  | inl e ↦
      let no_mark : (c == b'%') ≡ false = unfold stays_in_path is_unreserved in ground arith in
      rw e (unfold decode in ground (arith, no_mark))
  | inr e ↦ rw e (decode-percent c s h)
]

-- Decoding an escaped path gives the path.
pub unescape-escape_path :
    (path : Text) → All (λ c. c < 256) path → unescape (escape_path path) ≡ some path
unfolding unescape escape_path
unescape-escape_path [] h = unfold decode in refl
unescape-escape_path (c ∷ s) h =
    decode-escape_path_byte c (escape_path s) h.0 ∙ ap (onto c) (unescape-escape_path s h.1)

any-escape_path_byte :
    (c : ℕ) (s : Text) → c < 256 → any ends_path (escape_path_byte c ++ s) ≡ any ends_path s
unfolding escape_path_byte
any-escape_path_byte c s h = elim (Bool-cases (stays_in_path c)) [
  | inl e ↦
      let within : ends_path c ≡ false = unfold stays_in_path is_unreserved in ground arith in
      rw e (rw within refl)
  | inr e ↦
      let high : ends_path (hex (c / 16)) ≡ false = hex_in_path (c / 16) (omega arith) in
      let low : ends_path (hex (c % 16)) ≡ false = hex_in_path (c % 16) (omega arith) in
      rw e (rw (high, low) refl)
]

-- An escaped path ends where the path ends.
pub any-escape_path :
    (path : Text) → All (λ c. c < 256) path → any ends_path (escape_path path) ≡ false
unfolding escape_path
any-escape_path [] h = refl
any-escape_path (c ∷ s) h = any-escape_path_byte c (escape_path s) h.0 ∙ any-escape_path s h.1
