-- ===== src/Ebpf/Proc.antt =====
-- internal/ebpf/proc_linux.go: readPPID. The content of /proc/<pid>/stat is the argument `read_stat`.
use ltm.Prelude.{
  ◌≡◌, refl, ℤ, Bool, true, false, List, [], ◌∷◌, ◌++◌, Text, Option, none, some, ◌==◌, any, arith,
  Bool-cases, inl, inr,
}
use ltm.Go.Numbers.{atoi}
use ltm.Go.Strings.{fields}

-- The text behind the last `)`.
abbrev or_here : Bool → Text → Option Text → Option Text
or_here b s (some t) = some t
or_here true s none = some s
or_here false s none = none

unfoldable pub behind_last : Text → Option Text
behind_last [] = none
behind_last (c ∷ s) = or_here (c == b')') s (behind_last s)

abbrev pub ppid_field : List Text → Option ℤ
ppid_field [] = none
ppid_field (state ∷ []) = none
ppid_field (state ∷ ppid ∷ rest) = atoi ppid

abbrev pub ppid_of : Option Text → Option ℤ
ppid_of none = none
ppid_of (some []) = none
ppid_of (some (c ∷ s)) = ppid_field (fields (c ∷ s))

abbrev pub stat_ppid : Option Text → Option ℤ
stat_ppid none = none
stat_ppid (some data_) = ppid_of (behind_last data_)

unfoldable pub read_ppid : (ℤ → Option Text) → ℤ → Option ℤ
read_ppid read_stat pid = stat_ppid (read_stat pid)

behind_last-none : (s : Text) → any (λ c. c == b')') s ≡ false → behind_last s ≡ none
unfolding behind_last
behind_last-none [] h = refl
behind_last-none (c ∷ s) h = elim (Bool-cases (c == b')')) [
  | inl e ↦ absurd (ground (arith, e, h))
  | inr e ↦ rw (e, behind_last-none s (ground (arith, e, h))) refl
]

behind_last-append :
    (front rest : Text)
    → any (λ c. c == b')') rest ≡ false
    → behind_last (front ++ b')' ∷ rest) ≡ some rest
unfolding behind_last
behind_last-append [] rest h = rw (behind_last-none rest h) refl
behind_last-append (c ∷ front) rest h = rw (behind_last-append front rest h) refl

-- Whatever stands before the last `)`, spaces and parentheses of a process name included, the parent
-- is read from the second field behind it.
read_ppid-any_name :
    (read_stat : ℤ → Option Text) (pid : ℤ) (front rest : Text)
    → any (λ c. c == b')') rest ≡ false
    → read_stat pid ≡ some (front ++ b')' ∷ rest)
    → read_ppid read_stat pid ≡ ppid_of (some rest)
unfolding read_ppid
read_ppid-any_name read_stat pid front rest h e = rw (e, behind_last-append front rest h) refl
