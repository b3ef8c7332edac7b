-- ===== src/Query/Numbers.antt =====
-- The numbers of a question, which internal/query/engine.go finds and strconv reads.
use ltm.Prelude.{
  ℕ, zero, suc, ◌+◌, ◌-◌, ◌*◌, ◌/◌, ◌%◌, ◌≤◌, ◌<◌, pos, Bool, true, false, not, [], ◌∷◌, ◌++◌, Text,
  some, is_empty, leb, ◌==◌, ◌≡◌, refl, ap, ◌∙◌, any, arith, Bool-cases, inl, inr,
}
use ltm.Go.Numbers.{atoi, decimal, digits_onto, digits_value, natural, max_int}
use ltm.Query.Words.{at_end, digits_end, is_blank, is_digit, number_behind, span}

abbrev pub no_digit : ℕ → Bool
no_digit c = not (is_digit c)

-- A text of digits, with at least one.
abbrev pub Digits : Text → Type 0
Digits s = (is_empty s ≡ false) × (any no_digit s ≡ false)

digit_step :
    (m d : ℕ) (tail : Text)
    → d ≤ 9
    → digits_value m ((b'0' + d) ∷ tail) ≡ digits_value (m * 10 + d) tail
unfolding digits_value
digit_step m d tail h =
    let same : m * 10 + (b'0' + d - b'0') ≡ m * 10 + d = omega arith in
    ground (arith, ap (λ v. digits_value v tail) same)

digits_value-digits_onto :
    (fuel n : ℕ) (tail : Text)
    → n < fuel
    → digits_value 0 (digits_onto fuel n tail) ≡ digits_value n tail
unfolding digits_onto
digits_value-digits_onto zero n tail h = absurd (omega arith)
digits_value-digits_onto (suc fuel) n tail h = elim (Bool-cases (leb n 9)) [
  | inl small ↦
      let same : 0 * 10 + n ≡ n = omega arith in
      rw small (digit_step 0 n tail (ground arith) ∙ ap (λ v. digits_value v tail) same)
  | inr large ↦
      let few : n / 10 < fuel = ground arith in
      let low : n % 10 ≤ 9 = omega arith in
      let whole : n / 10 * 10 + n % 10 ≡ n = omega arith in
      rw large (
        digits_value-digits_onto fuel (n / 10) ((b'0' + n % 10) ∷ tail) few
        ∙ digit_step (n / 10) (n % 10) tail low
        ∙ ap (λ v. digits_value v tail) whole)
]

any-digits_onto :
    (fuel n : ℕ) (tail : Text)
    → n < fuel
    → any no_digit (digits_onto fuel n tail) ≡ any no_digit tail
unfolding digits_onto
any-digits_onto zero n tail h = absurd (omega arith)
any-digits_onto (suc fuel) n tail h = elim (Bool-cases (leb n 9)) [
  | inl small ↦ ground arith
  | inr large ↦
      let few : n / 10 < fuel = ground arith in
      let low : n % 10 ≤ 9 = omega arith in
      let is_low : is_digit (b'0' + n % 10) ≡ true = ground arith in
      rw large (any-digits_onto fuel (n / 10) ((b'0' + n % 10) ∷ tail) few ∙ rw is_low refl)
]

is_empty-digits_onto :
    (fuel n : ℕ) (tail : Text) → is_empty tail ≡ false → is_empty (digits_onto fuel n tail) ≡ false
unfolding digits_onto
is_empty-digits_onto zero n tail h = h
is_empty-digits_onto (suc fuel) n tail h = elim (Bool-cases (leb n 9)) [
  | inl small ↦ rw small refl
  | inr large ↦ rw large (is_empty-digits_onto fuel (n / 10) ((b'0' + n % 10) ∷ tail) refl)
]

pub decimal-Digits : (n : ℕ) → Digits (decimal n)
unfolding decimal digits_onto
decimal-Digits n = (
  elim (Bool-cases (leb n 9)) [
    | inl small ↦ rw small refl
    | inr large ↦ rw large (is_empty-digits_onto n (n / 10) ((b'0' + n % 10) ∷ []) refl)
  ],
  any-digits_onto (suc n) n [] (omega arith),
)

natural-digits : (s : Text) → is_empty s ≡ false → natural s ≡ digits_value 0 s
unfolding natural
natural-digits [] h = absurd (cc h)
natural-digits (c ∷ s) h = refl

-- strconv.Atoi reads what strconv.Itoa has written.
pub natural-decimal : (n : ℕ) → natural (decimal n) ≡ some n
unfolding decimal digits_value
natural-decimal n =
    natural-digits (decimal n) (decimal-Digits n).0
    ∙ digits_value-digits_onto (suc n) n [] (omega arith)

atoi-natural :
    (s : Text) (n : ℕ) → Digits s → natural s ≡ some n → n ≤ max_int → atoi s ≡ some (pos n)
unfolding atoi
atoi-natural [] n d e h = absurd (cc d.0)
atoi-natural (c ∷ s) n d e h =
    let minus : (c == b'-') ≡ false = ground (arith, d.1) in
    let plus : (c == b'+') ≡ false = ground (arith, d.1) in
    let fits : leb n max_int ≡ true = ground arith in rw (minus, plus, e, fits) refl

pub atoi-decimal : (n : ℕ) → n ≤ max_int → atoi (decimal n) ≡ some (pos n)
atoi-decimal n h = atoi-natural (decimal n) n (decimal-Digits n) (natural-decimal n) h

span-digits :
    (s right : Text)
    → any no_digit s ≡ false
    → at_end right ≡ true
    → span is_digit (s ++ right) ≡ (s, right)
unfolding span
span-digits [] [] d h = refl
span-digits [] (c ∷ right) d h = ground arith
span-digits (c ∷ s) right d h =
    let is_first : is_digit c ≡ true = ground arith in
    let others : any no_digit s ≡ false = ground arith in
    rw (is_first, span-digits s right others h) refl

digits_end-span :
    (s right : Text)
    → Digits s
    → at_end right ≡ true
    → digits_end (span is_digit (s ++ right)) ≡ some s
digits_end-span s right d h = ap digits_end (span-digits s right d.1 h) ∙ rw (d.0, h) refl

-- A blank, a number, and no word character behind it.
pub number_behind-Digits :
    (s right : Text)
    → Digits s
    → at_end right ≡ true
    → number_behind (some (32 ∷ (s ++ right))) ≡ some s
unfolding span
number_behind-Digits [] right d h = absurd (cc d.0)
number_behind-Digits (c ∷ s) right d h =
    let full : is_blank c ≡ false = ground (arith, d.1) in
    rw full (digits_end-span (c ∷ s) right d h)
