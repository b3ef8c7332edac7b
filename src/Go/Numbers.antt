-- ===== src/Go/Numbers.antt =====
-- Go's package strconv, as far as the program uses it.
use ltm.Prelude.{
  not, ℕ, zero, suc, ◌+◌, ◌-◌, ◌*◌, ◌/◌, ◌%◌, ◌≡◌, refl, ◌&&◌, [], ◌∷◌, Option, none, some, Text,
  codes, leb, ◌==◌, if◌then◌else◌, ℤ, pos, negsuc,
}

-- The digits of a number before `acc`. A number has fewer digits than its value, but for zero.
unfoldable pub digits_onto : ℕ → ℕ → Text → Text
digits_onto zero n acc = acc
digits_onto (suc fuel) n acc =
    let rest = digits_onto fuel (n / 10) ((b'0' + n % 10) ∷ acc) in
    if leb n 9 then (b'0' + n) ∷ acc else rest

unfoldable pub decimal : ℕ → Text
unfolding digits_onto
decimal n = digits_onto (suc n) n []

-- strconv.Itoa.
unfoldable pub itoa : ℤ → Text
unfolding decimal
itoa (pos n) = decimal n
itoa (negsuc n) = b'-' ∷ decimal (n + 1)

unfoldable pub digits_value : ℕ → Text → Option ℕ
digits_value acc [] = some acc
digits_value acc (c ∷ s) =
    let rest = digits_value (acc * 10 + (c - b'0')) s in
    if leb b'0' c && leb c b'9' then rest else none

unfoldable pub natural : Text → Option ℕ
unfolding digits_value
natural [] = none
natural (c ∷ s) = digits_value 0 (c ∷ s)

abbrev pub max_int : ℕ
max_int = 9223372036854775807

abbrev positive : Option ℕ → Option ℤ
positive none = none
positive (some n) = if leb n max_int then some (pos n) else none

abbrev negative : Option ℕ → Option ℤ
negative none = none
negative (some zero) = some (pos 0)
negative (some (suc n)) = if leb n max_int then some (negsuc n) else none

-- strconv.Atoi; `none` is its error, out of range included.
unfoldable pub atoi : Text → Option ℤ
unfolding natural
atoi [] = none
atoi (c ∷ s) =
    if c == b'-'
    then negative (natural s)
    else if c == b'+'
    then positive (natural s)
    else positive (natural (c ∷ s))

abbrev max_uint : ℕ
max_uint = 18446744073709551615

-- What ParseUint returns beside its error: 0 for a text that is no number, and the greatest uint64 from
-- the digit on that is out of range.
unfoldable pub uint_value : ℕ → Text → ℕ
uint_value acc [] = acc
uint_value acc (c ∷ s) =
    let n = acc * 10 + (c - b'0') in
    let rest = uint_value n s in
    if not (leb b'0' c && leb c b'9') then 0 else if leb n max_uint then rest else max_uint

abbrev positive_value : ℕ → ℤ
positive_value n = if leb n max_int then pos n else pos max_int

abbrev negative_value : ℕ → ℤ
negative_value zero = pos 0
negative_value (suc n) = if leb n max_int then negsuc n else negsuc max_int

-- What strconv.Atoi returns, with an error or without.
unfoldable pub atoi_value : Text → ℤ
unfolding uint_value
atoi_value [] = pos 0
atoi_value (c ∷ s) =
    if c == b'-'
    then negative_value (uint_value 0 s)
    else if c == b'+'
    then positive_value (uint_value 0 s)
    else positive_value (uint_value 0 (c ∷ s))

reads : atoi (codes "-120") ≡ some (negsuc 119)
unfolding atoi
reads = refl

writes : itoa (pos 4207) ≡ codes "4207"
unfolding itoa
writes = refl
