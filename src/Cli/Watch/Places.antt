-- ===== src/Cli/Watch/Places.antt =====
-- Where an id stands in a log with ascending ids: internal/storage/query.go, EventsAfterID.
use mathlib.Core.Path.{subst}
use ltm.Prelude.{
  ℕ, zero, suc, ◌≤◌, ◌<◌, ◌≡◌, refl, sym, ap, ◌∙◌, List, [], ◌∷◌, ◌++◌, ltb, keep, keep-append,
  take, drop, take-append, take_all, length, length-append, All, All-append, append_assoc, arith,
  Bool-cases, inl, inr,
}
use ltm.Storage.Event.{Event}

-- Each id is greater than those before it.
abbrev pub IsAscending : List Event → Type 0
IsAscending [] = Unit
IsAscending (ev ∷ events) = All (λ e. ev.id < e.id) events × IsAscending events

abbrev pub newer : ℕ → List Event → List Event
newer last = keep (λ ev. ltb last ev.id)

newer_of_old : (last : ℕ) (xs : List Event) → All (λ e. e.id ≤ last) xs → newer last xs ≡ []
newer_of_old last [] h = refl
newer_of_old last (x ∷ xs) (p, h) = ground (arith, newer_of_old last xs h)

pub newer_of_new : (last : ℕ) (xs : List Event) → All (λ e. last < e.id) xs → newer last xs ≡ xs
newer_of_new last [] h = refl
newer_of_new last (x ∷ xs) (p, h) = ground (arith, newer_of_new last xs h)

older : (a b : ℕ) (xs : List Event) → a ≤ b → All (λ e. e.id ≤ a) xs → All (λ e. e.id ≤ b) xs
older a b [] h all = tt
older a b (x ∷ xs) h (p, all) = (omega arith, older a b xs h all)

-- Where a watch stands in the log: what is behind its id and what is before it.
pub record At (log : List Event) (last : ℕ) (rest : List Event) : Type 0 where
  pub front : List Event
  pub split : log ≡ front ++ rest
  pub below : All (λ e. e.id ≤ last) front
  pub above : All (λ e. last < e.id) rest
  pub ascending : IsAscending rest

pub At-newer :
    {log : List Event} {last : ℕ} {rest : List Event} → At log last rest → newer last log ≡ rest
At-newer {log} {last} {rest} at =
    ap (newer last) at.split
    ∙ keep-append (λ ev. ltb last ev.id) at.front rest
    ∙ ap (λ xs. xs ++ newer last rest) (newer_of_old last at.front at.below)
    ∙ newer_of_new last rest at.above

pub At-next :
    {log : List Event} {last : ℕ} (ev : Event) (rest : List Event)
    → At log last (ev ∷ rest)
    → At log ev.id rest
At-next {log} {last} ev rest at = record {
  front = at.front ++ ev ∷ [];
  split = at.split ∙ sym (append_assoc at.front (ev ∷ []) rest);
  below =
      All-append _ at.front (ev ∷ [])
        (older last ev.id at.front (omega (arith, at.above.0)) at.below) (omega arith, tt);
  above = at.ascending.0;
  ascending = at.ascending.1;
}

pub At-begins : (last : ℕ) (log : List Event) → IsAscending log → At log last (newer last log)
At-begins last [] h = record { front = []; split = refl; below = tt; above = tt; ascending = tt }
At-begins last (x ∷ log) (first, h) = elim (Bool-cases (ltb last x.id)) [
  | inl e ↦
      let beyond = beyond_all log (ground (arith, e)) first in
      rw (e, newer_of_new last log beyond)
        (record {
          front = [];
          split = refl;
          below = tt;
          above = (ground (arith, e), beyond);
          ascending = (first, h);
        })
  | inr e ↦
      let at = At-begins last log h in
      rw e (record {
        front = x ∷ at.front;
        split = ap (◌∷◌ x) at.split;
        below = (ground (arith, e), at.below);
        above = at.above;
        ascending = at.ascending;
      })
]
  where
    beyond_all :
        (xs : List Event) → last < x.id → All (λ e. x.id < e.id) xs → All (λ e. last < e.id) xs
    beyond_all [] p q = tt
    beyond_all (y ∷ xs) p (q, qs) = (omega arith, beyond_all xs p qs)

pub take-drop : (n : ℕ) (xs : List Event) → take n xs ++ drop n xs ≡ xs
take-drop zero xs = refl
take-drop (suc n) [] = refl
take-drop (suc n) (x ∷ xs) = ap (◌∷◌ x) (take-drop n xs)

IsAscending-append :
    (last : ℕ) (rest : List Event) (ev : Event)
    → All (λ e. e.id < ev.id) rest
    → IsAscending rest
    → IsAscending (rest ++ ev ∷ [])
IsAscending-append last [] ev h a = (tt, tt)
IsAscending-append last (x ∷ rest) ev (p, h) (first, a) =
    (All-append _ rest (ev ∷ []) first (p, tt), IsAscending-append last rest ev h a)

pub All-right : (P : Event → Type 0) (xs ys : List Event) → All P (xs ++ ys) → All P ys
All-right P [] ys h = h
All-right P (x ∷ xs) ys (p, h) = All-right P xs ys h

pub At-log :
    (log : List Event) (last : ℕ) (rest : List Event) (ev : Event)
    → All (λ e. e.id < ev.id) log
    → last < ev.id
    → At log last rest
    → At (log ++ ev ∷ []) last (rest ++ ev ∷ [])
At-log log last rest ev greater behind at = record {
  front = at.front;
  split = ap (λ xs. xs ++ ev ∷ []) at.split ∙ append_assoc at.front rest (ev ∷ []);
  below = at.below;
  above = All-append _ rest (ev ∷ []) at.above (behind, tt);
  ascending =
      IsAscending-append last rest ev
        (All-right (λ e. e.id < ev.id) at.front rest
          (subst (All (λ e. e.id < ev.id)) at.split greater))
        at.ascending;
}

-- A number of events that there are, for one that there may not be.
pub take_within :
    (b : ℕ) (xs : List Event)
    → (n : ℕ) × (n ≤ length xs) × (take n xs ≡ take b xs) × (drop n xs ≡ drop b xs)
take_within zero xs = (0, omega arith, refl, refl)
take_within (suc b) [] = (0, omega arith, refl, refl)
take_within (suc b) (x ∷ xs) =
    let (n, h, t, d) = take_within b xs in (suc n, omega (arith, h), ap (◌∷◌ x) t, d)

append-cancel : (xs ys zs : List Event) → xs ++ zs ≡ ys ++ zs → xs ≡ ys
append-cancel xs ys zs h =
    let same : length xs ≡ length ys =
      omega (arith, ap length h, length-append xs zs, length-append ys zs) in
    sym (take_all (length xs) xs (omega arith))
    ∙ sym (take-append (length xs) xs zs (omega arith))
    ∙ ap (take (length xs)) h
    ∙ take-append (length xs) ys zs (omega (arith, same))
    ∙ take_all (length xs) ys (omega (arith, same))

-- What is behind the watch's id now, with what will be logged.
pub newer_now :
    (log rest future : List Event) (last : ℕ)
    → At (log ++ future) last (rest ++ future)
    → newer last log ≡ rest
newer_now log rest future last at = append-cancel (newer last log) rest future (
    ap (λ xs. newer last log ++ xs)
      (sym (newer_of_new last future (All-right (λ e. last < e.id) rest future at.above)))
    ∙ sym (keep-append _ log future)
    ∙ At-newer at)
