-- ===== src/Collector/Components.antt =====
-- The components of a resolved path, for the match of a rule as a prefix of components.
pub mod Prefix
unfoldable pub use Prefix.*
use ltm.Prelude.{
  ◌≡◌, ◌≢◌, refl, sym, ap, ◌∙◌, Bool, true, false, ◌&&◌, ◌||◌, List, [], ◌∷◌, ◌++◌, Text, codes,
  text_eq, is_empty, All, All-append, ◌==◌, arith, if◌then◌else◌, append_assoc, append-nil, inl,
  inr, Bool-cases,
}
use ltm.Go.Filepath.{
  is_rooted, dot, dot_dot, up, add_component, resolve_onto, resolve, reverse_onto, clean,
}
use ltm.Go.Strings.{has_prefix, join, split, split_from}
use ltm.Collector.Filter.{matches_rule}

split_from-HasNoSlash : (cur s : Text) → HasNoSlash cur → All HasNoSlash (split_from b'/' cur s)
unfolding split_from
split_from-HasNoSlash cur [] h = (h, tt)
split_from-HasNoSlash cur (c ∷ s) h = elim (Bool-cases (c == b'/')) [
  | inl e ↦ rw (e, split_from) (h, split_from-HasNoSlash [] s tt)
  | inr e ↦
      rw (e, split_from)
        (split_from-HasNoSlash (cur ++ c ∷ []) s (All-append _ cur (c ∷ []) h (e, tt)))
]

dot_dot-IsComponent : IsComponent dot_dot
dot_dot-IsComponent = record { not_empty = refl; no_slash = (refl, (refl, tt)) }

up-IsComponent :
    (rooted : Bool) (stack : List Text) → All IsComponent stack → All IsComponent (up rooted stack)
unfolding up
up-IsComponent true [] h = tt
up-IsComponent false [] h = (dot_dot-IsComponent, tt)
up-IsComponent rooted (c ∷ stack) (hc, h) = elim (Bool-cases (text_eq c dot_dot)) [
  | inl e ↦ rw e (dot_dot-IsComponent, (hc, h))
  | inr e ↦ rw e h
]

add_component-IsComponent :
    (rooted : Bool) (stack : List Text) (c : Text)
    → All IsComponent stack
    → HasNoSlash c
    → All IsComponent (add_component rooted stack c)
unfolding add_component
add_component-IsComponent rooted stack c hs hc =
    go (is_empty c) refl (text_eq c dot) (text_eq c dot_dot)
  where
    go :
        (e : Bool)
        → is_empty c ≡ e
        → (a b : Bool)
        → All IsComponent (if e || a then stack else if b then up rooted stack else c ∷ stack)
    go true h a b = hs
    go false h true b = hs
    go false h false true = up-IsComponent rooted stack hs
    go false h false false = (record { not_empty = h; no_slash = hc }, hs)

resolve_onto-IsComponent :
    (rooted : Bool) (stack cs : List Text)
    → All IsComponent stack
    → All HasNoSlash cs
    → All IsComponent (resolve_onto rooted stack cs)
unfolding resolve_onto
resolve_onto-IsComponent rooted stack [] hs hc = hs
resolve_onto-IsComponent rooted stack (c ∷ cs) hs (hc, hcs) =
    resolve_onto-IsComponent rooted (add_component rooted stack c) cs
      (add_component-IsComponent rooted stack c hs hc) hcs

reverse_onto-IsComponent :
    (cs out : List Text)
    → All IsComponent cs
    → All IsComponent out
    → All IsComponent (reverse_onto cs out)
reverse_onto-IsComponent [] out hc ho = ho
reverse_onto-IsComponent (c ∷ cs) out (hc, hcs) ho =
    reverse_onto-IsComponent cs (c ∷ out) hcs (hc, ho)

-- What is left of a resolved path are components.
pub resolve-IsComponent : (path : Text) → All IsComponent (resolve path)
unfolding resolve split
resolve-IsComponent path =
    reverse_onto-IsComponent _ []
      (resolve_onto-IsComponent (is_rooted path) [] (split_from b'/' [] path) tt
        (split_from-HasNoSlash [] path tt))
      tt

-- On absolute paths, a rule below the root matches just in case its components begin the path's.
pub matches_rule-clean :
    (path rule : Text)
    → is_rooted path ≡ true
    → is_rooted rule ≡ true
    → resolve rule ≢ []
    → matches_rule (clean path) (clean rule) ≡ is_prefix (resolve rule) (resolve path)
unfolding clean absolute
matches_rule-clean path rule hp hr ne =
    rw (hp, hr)
      (matches_rule-is_prefix (resolve rule) (resolve path) ne (resolve-IsComponent rule)
        (resolve-IsComponent path))
