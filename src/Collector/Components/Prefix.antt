-- ===== src/Collector/Components/Prefix.antt =====
-- Absolute paths as lists of components, and the match of a rule as a prefix of components.
use ltm.Prelude.{
  ◌≡◌, ◌≢◌, refl, sym, ap, ◌∙◌, Bool, true, false, ◌&&◌, ◌||◌, List, [], ◌∷◌, ◌++◌, Text, codes,
  text_eq, is_empty, All, ◌==◌, arith, append_assoc, append-nil,
}
use ltm.Go.Strings.{has_prefix, join}
use ltm.Collector.Filter.{matches_rule}

abbrev pub HasNoSlash : Text → Type 0
HasNoSlash = All (λ c. (c == b'/') ≡ false)

-- A component is not empty and has no slash.
pub record IsComponent (c : Text) : Type 0 where
  pub not_empty : is_empty c ≡ false
  pub no_slash : HasNoSlash c

unfoldable pub is_prefix : List Text → List Text → Bool
is_prefix [] cs = true
is_prefix (d ∷ ds) [] = false
is_prefix (d ∷ ds) (c ∷ cs) = text_eq c d && is_prefix ds cs

-- Each component behind a slash.
pub slashed : List Text → Text
slashed [] = []
slashed (c ∷ cs) = b'/' ∷ (c ++ slashed cs)

abbrev IsTail : Text → Type 0
IsTail [] = Unit
IsTail (c ∷ s) = c ≡ b'/'

slashed-IsTail : (cs : List Text) → IsTail (slashed cs)
unfolding slashed
slashed-IsTail [] = tt
slashed-IsTail (c ∷ cs) = refl

text_eq-component :
    (c d x y : Text)
    → HasNoSlash c
    → HasNoSlash d
    → IsTail x
    → IsTail y
    → text_eq (c ++ x) (d ++ y) ≡ (text_eq c d && text_eq x y)
unfolding text_eq
text_eq-component [] [] x y hc hd hx hy = refl
text_eq-component [] (e ∷ d) [] y hc hd hx hy = refl
text_eq-component [] (e ∷ d) (a ∷ x) y hc hd hx hy = ground arith
text_eq-component (b ∷ c) [] x [] hc hd hx hy = refl
text_eq-component (b ∷ c) [] x (a ∷ y) hc hd hx hy = ground arith
text_eq-component (b ∷ c) (e ∷ d) x y (hb, hc) (he, hd) hx hy =
    ground (arith, text_eq-component c d x y hc hd hx hy)

has_prefix-component :
    (c d x y : Text)
    → HasNoSlash c
    → HasNoSlash d
    → IsTail x
    → IsTail y
    → has_prefix (c ++ x) (d ++ (y ++ codes "/")) ≡ (text_eq c d && has_prefix x (y ++ codes "/"))
unfolding text_eq has_prefix
has_prefix-component [] [] x y hc hd hx hy = refl
has_prefix-component [] (e ∷ d) [] y hc hd hx hy = refl
has_prefix-component [] (e ∷ d) (a ∷ x) y hc hd hx hy = ground arith
has_prefix-component (b ∷ c) [] x [] hc hd hx hy = ground arith
has_prefix-component (b ∷ c) [] x (a ∷ y) hc hd hx hy = ground arith
has_prefix-component (b ∷ c) (e ∷ d) x y (hb, hc) (he, hd) hx hy =
    ground (arith, has_prefix-component c d x y hc hd hx hy)

matches_slash :
    (x y z : Text)
    → (text_eq (b'/' ∷ x) (b'/' ∷ y) || has_prefix (b'/' ∷ x) (b'/' ∷ z))
      ≡ (text_eq x y || has_prefix x z)
unfolding text_eq has_prefix
matches_slash x y z = refl

matches-is_prefix :
    (ds cs : List Text)
    → All IsComponent ds
    → All IsComponent cs
    → (text_eq (slashed cs) (slashed ds) || has_prefix (slashed cs) (slashed ds ++ codes "/"))
      ≡ is_prefix ds cs
unfolding slashed is_prefix
matches-is_prefix [] [] hd hc = unfold text_eq in refl
matches-is_prefix [] (c ∷ cs) hd hc = unfold text_eq has_prefix in refl
matches-is_prefix (d ∷ ds) [] hd hc = unfold text_eq has_prefix in refl
matches-is_prefix (d ∷ ds) (c ∷ cs) (hd, hds) (hc, hcs) =
    matches_slash (c ++ slashed cs) (d ++ slashed ds) (d ++ slashed ds ++ codes "/")
    ∙ ground (
      arith,
      append_assoc d (slashed ds) (codes "/"),
      text_eq-component c d (slashed cs) (slashed ds) hc.no_slash hd.no_slash (slashed-IsTail cs)
          (slashed-IsTail ds),
      has_prefix-component c d (slashed cs) (slashed ds) hc.no_slash hd.no_slash (slashed-IsTail cs)
          (slashed-IsTail ds),
      matches-is_prefix ds cs hds hcs,
    )

-- A cleaned absolute path, from its components.
unfoldable pub absolute : List Text → Text
absolute cs = b'/' ∷ join cs (codes "/")

pub absolute-slashed : (c : Text) (cs : List Text) → absolute (c ∷ cs) ≡ slashed (c ∷ cs)
unfolding absolute join slashed
absolute-slashed c [] = ap (λ s. b'/' ∷ s) (sym (append-nil c))
absolute-slashed c (d ∷ cs) =
    ap (λ s. b'/' ∷ s) (append_assoc c (codes "/") (join (d ∷ cs) (codes "/")))
    ∙ ap (λ s. b'/' ∷ (c ++ s)) (absolute-slashed d cs)

matches_root :
    (d : Text) (ds : List Text)
    → is_empty d ≡ false
    → matches_rule (absolute []) (slashed (d ∷ ds)) ≡ false
unfolding matches_rule absolute slashed join text_eq has_prefix
matches_root [] ds h = absurd (cc)
matches_root (x ∷ d) ds h = refl

-- A rule below the root matches a path just in case its components begin the path's.
pub matches_rule-is_prefix :
    (ds cs : List Text)
    → ds ≢ []
    → All IsComponent ds
    → All IsComponent cs
    → matches_rule (absolute cs) (absolute ds) ≡ is_prefix ds cs
matches_rule-is_prefix [] cs ne hd hc = absurd (ne refl)
matches_rule-is_prefix (d ∷ ds) [] ne (hd, hds) hc =
    unfold is_prefix in rw (absolute-slashed d ds) (matches_root d ds hd.not_empty)
matches_rule-is_prefix (d ∷ ds) (c ∷ cs) ne hd hc =
    unfold matches_rule in
    rw (absolute-slashed d ds, absolute-slashed c cs) (matches-is_prefix (d ∷ ds) (c ∷ cs) hd hc)
