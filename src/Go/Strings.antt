-- ===== src/Go/Strings.antt =====
-- Go's package strings, on texts of code points.
use ltm.Prelude.{
  ℕ, ◌+◌, ◌-◌, Bool, true, false, ◌&&◌, ◌||◌, List, [], ◌∷◌, ◌++◌, Option, none, some, Text, ◌≡◌,
  refl, zero, suc, codes, text_eq, is_empty, leb, ◌==◌, if◌then◌else◌, map,
}

abbrev within : ℕ → ℕ → ℕ → Bool
within lo hi c = leb lo c && leb c hi

-- unicode.IsSpace, on an element taken for a code point: on the bytes of a text beyond ASCII it differs.
unfoldable pub is_space : ℕ → Bool
is_space c =
    within 9 13 c
    || c == 32
    || c == 0x85
    || c == 0xA0
    || c == 0x1680
    || within 0x2000 0x200a c
    || within 0x2028 0x2029 c
    || c == 0x202f
    || c == 0x205f
    || c == 0x3000

-- unicode.ToUpper and unicode.ToLower where the letter or its image is ASCII. Other letters stay.
unfoldable pub upper : ℕ → ℕ
upper c =
    if within b'a' b'z' c
    then c - 32
    else if c == 0x131
    then b'I'
    else if c == 0x17f
    then b'S'
    else c

unfoldable pub lower : ℕ → ℕ
lower c =
    if within b'A' b'Z' c
    then c + 32
    else if c == 0x130
    then b'i'
    else if c == 0x212a
    then b'k'
    else c

abbrev pub to_upper : Text → Text
to_upper = map upper

abbrev pub to_lower : Text → Text
to_lower = map lower

-- strings.TrimLeftFunc, TrimRightFunc and TrimFunc.
unfoldable pub trim_left : (ℕ → Bool) → Text → Text
trim_left p [] = []
trim_left p (c ∷ s) = if p c then trim_left p s else c ∷ s

unfoldable pub trim_right : (ℕ → Bool) → Text → Text
trim_right p [] = []
trim_right p (c ∷ s) = let rest = trim_right p s in if is_empty rest && p c then [] else c ∷ rest

unfoldable pub trim_func : (ℕ → Bool) → Text → Text
unfolding trim_left trim_right
trim_func p s = trim_right p (trim_left p s)

unfoldable pub trim_space : Text → Text
unfolding trim_func is_space
trim_space s = trim_func is_space s

unfoldable pub one_of : Text → ℕ → Bool
one_of [] c = false
one_of (x ∷ xs) c = x == c || one_of xs c

-- strings.Trim with its cutset.
unfoldable pub trim : Text → Text → Text
unfolding trim_func one_of
trim s cutset = trim_func (one_of cutset) s

-- What is behind a prefix.
unfoldable pub strip_prefix : Text → Text → Option Text
strip_prefix [] s = some s
strip_prefix (p ∷ ps) [] = none
strip_prefix (p ∷ ps) (c ∷ s) = if p == c then strip_prefix ps s else none

abbrev pub is_some {ℓ} : {A : Type ℓ} → Option A → Bool
is_some none = false
is_some (some a) = true

unfoldable pub has_prefix : Text → Text → Bool
has_prefix s [] = true
has_prefix [] (p ∷ ps) = false
has_prefix (c ∷ s) (p ∷ ps) = c == p && has_prefix s ps

-- strings.TrimSuffix with a suffix of one character, and with a longer one.
unfoldable pub trim_suffix : Text → Text → Text
unfolding text_eq
trim_suffix [] suffix = []
trim_suffix (c ∷ s) suffix =
    let rest = trim_suffix s suffix in if text_eq (c ∷ s) suffix then [] else c ∷ rest

abbrev before_char : ℕ → Option (Text × Text) → Option (Text × Text)
before_char c none = none
before_char c (some (a, b)) = some (c ∷ a, b)

-- strings.Cut: the text before the first occurrence of the separator and the text after it.
unfoldable pub cut : Text → Text → Option (Text × Text)
unfolding strip_prefix
cut [] sep = elim (strip_prefix sep []) [ none ↦ none | some rest ↦ some ([], rest) ]
cut (c ∷ s) sep = elim (strip_prefix sep (c ∷ s)) [
  | none ↦ before_char c (cut s sep)
  | some rest ↦ some ([], rest)
]

unfoldable pub contains : Text → Text → Bool
unfolding cut
contains s sub = is_some (cut s sub)

abbrev emit_field : Text → List Text → List Text
emit_field cur rest = if is_empty cur then rest else cur ∷ rest

unfoldable pub fields_from : Text → Text → List Text
unfolding is_space
fields_from cur [] = emit_field cur []
fields_from cur (c ∷ s) = elim (is_space c) [
  | true ↦ emit_field cur (fields_from [] s)
  | false ↦ fields_from (cur ++ c ∷ []) s
]

-- strings.Fields.
unfoldable pub fields : Text → List Text
unfolding fields_from
fields s = fields_from [] s

-- strings.Join.
unfoldable pub join : List Text → Text → Text
join [] sep = []
join (p ∷ []) sep = p
join (p ∷ q ∷ ps) sep = p ++ sep ++ join (q ∷ ps) sep

unfoldable pub split_from : ℕ → Text → Text → List Text
split_from sep cur [] = cur ∷ []
split_from sep cur (c ∷ s) = elim (c == sep) [
  | true ↦ cur ∷ split_from sep [] s
  | false ↦ split_from sep (cur ++ c ∷ []) s
]

-- strings.Split with a separator of one character.
unfoldable pub split : Text → ℕ → List Text
unfolding split_from
split s sep = split_from sep [] s

-- strings.Repeat.
unfoldable pub repeat : Text → ℕ → Text
repeat s zero = []
repeat s (suc n) = s ++ repeat s n

trims : trim_space (codes " \n a b\t ") ≡ codes "a b"
unfolding trim_space
trims = refl

cuts : cut (codes "k=v=w") (codes "=") ≡ some (codes "k", codes "v=w")
unfolding cut
cuts = refl

splits : fields (codes " a  bc ") ≡ codes "a" ∷ codes "bc" ∷ []
unfolding fields
splits = refl
