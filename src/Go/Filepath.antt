-- ===== src/Go/Filepath.antt =====
-- Go's filepath.Clean on Unix: the path's components with `.` and `..` resolved.
use ltm.Prelude.{
  ◌≡◌, refl, Bool, false, ◌||◌, List, [], ◌∷◌, Text, codes, text_eq, is_empty, ◌==◌, if◌then◌else◌,
}
use ltm.Go.Strings.{split, join}

abbrev pub is_rooted : Text → Bool
is_rooted [] = false
is_rooted (c ∷ s) = c == b'/'

abbrev pub dot : Text
dot = b'.' ∷ []

abbrev pub dot_dot : Text
dot_dot = b'.' ∷ b'.' ∷ []

-- `..` against the components before it, the last one first.
unfoldable pub up : Bool → List Text → List Text
unfolding text_eq
up rooted [] = if rooted then [] else dot_dot ∷ []
up rooted (last ∷ before) = if text_eq last dot_dot then dot_dot ∷ last ∷ before else before

-- One component: `.` and nothing are dropped.
unfoldable pub add_component : Bool → List Text → Text → List Text
unfolding up text_eq
add_component rooted stack c =
    if is_empty c || text_eq c dot
    then stack
    else if text_eq c dot_dot
    then up rooted stack
    else c ∷ stack

unfoldable pub resolve_onto : Bool → List Text → List Text → List Text
resolve_onto rooted stack [] = stack
resolve_onto rooted stack (c ∷ cs) = resolve_onto rooted (add_component rooted stack c) cs

abbrev pub reverse_onto : List Text → List Text → List Text
reverse_onto [] out = out
reverse_onto (c ∷ cs) out = reverse_onto cs (c ∷ out)

-- The components that are left when a path has been resolved.
unfoldable pub resolve : Text → List Text
resolve path = reverse_onto (resolve_onto (is_rooted path) [] (split path b'/')) []

abbrev pub or_dot : Text → Text
or_dot [] = dot
or_dot (c ∷ s) = c ∷ s

unfoldable pub clean : Text → Text
clean path =
    if is_rooted path
    then b'/' ∷ join (resolve path) (codes "/")
    else or_dot (join (resolve path) (codes "/"))

-- filepath.Join.
unfoldable pub join_path : List Text → Text
unfolding clean
join_path parts = elim (filled parts) [ [] ↦ [] | p ∷ ps ↦ clean (join (p ∷ ps) (codes "/")) ]
  where
    filled : List Text → List Text
    filled [] = []
    filled (p ∷ ps) = if is_empty p then filled ps else p ∷ filled ps

cleans :
    (clean (codes "/a/./b//../c/") ≡ codes "/a/c")
    × (clean (codes "../x/../..") ≡ codes "../..")
    × (clean (codes "") ≡ codes ".")
    × (clean (codes "/..") ≡ codes "/")
unfolding clean resolve resolve_onto add_component split join
cleans = (refl, refl, refl, refl)
