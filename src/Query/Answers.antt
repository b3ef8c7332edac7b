-- ===== src/Query/Answers.antt =====
-- What the engine of internal/query/engine.go answers.
use ltm.Prelude.{
  ℕ, ◌≤◌, pos, Bool, true, false, List, [], ◌∷◌, ◌++◌, Text, codes, map, keep, Result, ok, err,
  ◌>>=◌, ◌≡◌, refl, sym, ap, ◌∙◌, arith, ◌⊎◌, inl, inr, All, some, Bool-cases, member, is_empty,
}
use mathlib.Core.Path.{subst}
use ltm.Go.Numbers.{decimal, itoa, max_int}
use ltm.Go.Strings.{fields, to_lower, trim}
use ltm.Go.Time.{Time}
use ltm.Storage.Event.{Error}
use ltm.Query.Words.{
  at_end, find_number, first_name, is_name, marks, number_here, restart_comm, strip_folded,
}
use ltm.Query.Numbers.{atoi-decimal, decimal-Digits, number_behind-Digits}
use ltm.Query.Engine.{
  Reader, QueryResult, digits_int, opens, pid_activity, pid_filter, pid_row, port_openers, port_row,
  query_pid, query_port, rows_of, rows_where, or_max,
}

rows_of-map {ℓ} : {A : Type ℓ} (f : A → Text) (xs : List A) → rows_of f xs ≡ map f xs
unfolding rows_of
rows_of-map f [] = refl
rows_of-map f (x ∷ xs) = ap (◌∷◌ (f x)) (rows_of-map f xs)

pub rows_where-keep {ℓ} :
    {A : Type ℓ} (p : A → Bool) (f : A → Text) (xs : List A) → rows_where p f xs ≡ map f (keep p xs)
unfolding rows_where
rows_where-keep p f [] = refl
rows_where-keep p f (x ∷ xs) = ground (arith, rows_where-keep p f xs)

digits_int-decimal : (n : ℕ) → n ≤ max_int → digits_int (decimal n) ≡ pos n
unfolding digits_int
digits_int-decimal n h = ap or_max (atoi-decimal n h)

found_pid :
    (n : ℕ) (right : Text)
    → at_end right ≡ true
    → find_number (codes "pid") false (codes "show activity for pid " ++ (decimal n ++ right))
      ≡ some (decimal n)
unfolding find_number number_here strip_folded
found_pid n right h = rw (number_behind-Digits (decimal n) right (decimal-Digits n) h) refl

found_port :
    (n : ℕ) (right : Text)
    → at_end right ≡ true
    → find_number (codes "port") false (codes "which process opened port " ++ (decimal n ++ right))
      ≡ some (decimal n)
unfolding find_number number_here strip_folded
found_port n right h = rw (number_behind-Digits (decimal n) right (decimal-Digits n) h) refl

pub bind-congr :
    {A B : Type 0} (r : Result Error A) (f g : A → Result Error B)
    → ((a : A) → f a ≡ g a)
    → (r >>= f) ≡ (r >>= g)
bind-congr (ok a) f g h = h a
bind-congr (err e) f g h = refl

module _ (rfc3339 : Time → Text) (store : Reader) where
  abbrev pub pid_answer : ℕ → Result Error QueryResult
  pid_answer n = do
    events ← store.query (pid_filter (pos n))
    ok (record {
      title = codes "activity for pid " ++ decimal n;
      rows = map (pid_row rfc3339) events;
    })

  abbrev pub port_answer : ℕ → Result Error QueryResult
  port_answer n = do
    found ← store.sockets (pos 500)
    ok (record {
      title = codes "processes that opened port " ++ decimal n;
      rows = map (port_row rfc3339 (pos n)) (keep (opens (pos n)) found);
    })

  -- A number of a question, in decimal notation and with no word character behind it, is the one that
  -- is looked for: the answer prints all events of that pid, or the sockets that listen or are bound at
  -- that port, whatever follows in the question. The number is no larger than an int.
  query_number :
      (n : ℕ) (right : Text)
      → n ≤ max_int
      → at_end right ≡ true
      → (query_pid rfc3339 store (codes "show activity for pid " ++ (decimal n ++ right))
          ≡ pid_answer n)
        × (query_port rfc3339 store (codes "which process opened port " ++ (decimal n ++ right))
            ≡ port_answer n)
  unfolding query_pid query_port itoa
  query_number n right h e = (
    ap (pid_activity rfc3339 store) (found_pid n right e)
        ∙ rw (digits_int-decimal n h) (
            bind-congr (store.query (pid_filter (pos n))) _ _ (λ events.
              ap
                (λ rows.
                  ok (record { title = codes "activity for pid " ++ decimal n; rows = rows }))
                (rows_of-map (pid_row rfc3339) events))),
    ap (port_openers rfc3339 store) (found_port n right e)
        ∙ rw (digits_int-decimal n h) (
            bind-congr (store.sockets (pos 500)) _ _ (λ found.
              ap
                (λ rows. ok (record {
                  title = codes "processes that opened port " ++ decimal n;
                  rows = rows;
                }))
                (rows_where-keep (opens (pos n)) (port_row rfc3339 (pos n)) found))),
  )

-- The words that say nothing of a process's name.
abbrev pub fillers : List Text
fillers = map codes (
    "what" ∷ "changed" ∷ "before" ∷ "after" ∷ "the" ∷ "restarted" ∷ "restart" ∷ "was" ∷ "did"
    ∷ "when" ∷ "why" ∷ "process" ∷ "service" ∷ "a" ∷ "is" ∷ [])

-- Without the question marks, points, commas and quotes around it.
abbrev pub bare : Text → Text
bare w = trim w (codes "?.,'\"")

abbrev pub Filler : Text → Type 0
Filler w = (bare w ≡ []) ⊎ (member (bare w) fillers ≡ true)

-- The name is the first word that is no filler, without the marks around it; it is empty when all
-- words are fillers.
abbrev pub IsFirstName : List Text → Text → Type 0
IsFirstName words name =
    (All Filler words × (name ≡ []))
    ⊎ ((before : List Text) × (w : Text) × (rest : List Text) × (words ≡ before ++ w ∷ rest)
        × All Filler before
        × (is_empty name ≡ false)
        × (member name fillers ≡ false)
        × (name ≡ bare w))

skip-Filler :
    (w : Text) (words : List Text) (name : Text)
    → Filler w
    → IsFirstName words name
    → IsFirstName (w ∷ words) name
skip-Filler w words name h (inl (all, none_)) = inl ((h, all), none_)
skip-Filler w words name h (inr (before, v, rest, split, all, some_name, good, same)) =
    inr (w ∷ before, v, rest, ap (◌∷◌ w) split, (h, all), some_name, good, same)

first_name-name :
    (w : Text) (words : List Text)
    → is_name (trim w marks) ≡ true
    → first_name (w ∷ words) ≡ trim w marks
unfolding first_name
first_name-name w words h = rw h refl

first_name-next :
    (w : Text) (words : List Text)
    → is_name (trim w marks) ≡ false
    → first_name (w ∷ words) ≡ first_name words
unfolding first_name
first_name-next w words h = rw h refl

no_name-Filler : (w : Text) → is_name (bare w) ≡ false → Filler w
no_name-Filler w h = outcome (bare w) h
  where
    outcome : (t : Text) → is_name t ≡ false → (t ≡ []) ⊎ (member t fillers ≡ true)
    outcome [] h = inl refl
    outcome (c ∷ t) h = inr (ground (arith, h))

is_name-parts : (t : Text) → is_name t ≡ true → (is_empty t ≡ false) × (member t fillers ≡ false)
is_name-parts [] h = absurd (cc h)
is_name-parts (c ∷ t) h = (refl, ground (arith, h))

first_name-nil : first_name [] ≡ []
unfolding first_name
first_name-nil = refl

first_name-IsFirstName : (words : List Text) → IsFirstName words (first_name words)
first_name-IsFirstName [] = inl (tt, first_name-nil)
first_name-IsFirstName (w ∷ words) = elim (Bool-cases (is_name (trim w marks))) [
  | inl good ↦ subst (IsFirstName (w ∷ words)) (sym (first_name-name w words good)) (
      let parts = is_name-parts (bare w) good in
      inr ([], w, words, refl, tt, parts.0, parts.1, refl))
  | inr e ↦
      subst (IsFirstName (w ∷ words)) (sym (first_name-next w words e))
        (skip-Filler w words (first_name words) (no_name-Filler w e) (first_name-IsFirstName words))
]

-- The process of a question about a restart is the first word of the question, in lower case, that is
-- neither empty nor one of the fifteen fillers without the marks `?.,'"` around it; it is given without
-- those marks, and there is none when all words are fillers.
pub restart_comm-IsFirstName : (q : Text) → IsFirstName (fields (to_lower q)) (restart_comm q)
unfolding restart_comm
restart_comm-IsFirstName q = first_name-IsFirstName (fields (to_lower q))
