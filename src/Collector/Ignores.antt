-- ===== src/Collector/Ignores.antt =====
-- The filter of the collector against the components of paths.
use ltm.Prelude.{
  ◌≡◌, ◌≢◌, refl, ap, ◌∙◌, Bool, true, false, ◌||◌, List, [], ◌∷◌, ◌++◌, Text, text_eq_iff,
  is_empty, member, All, All-append, any, any-append, arith, if◌then◌else◌,
}
use ltm.Go.Filepath.{is_rooted, resolve, resolve_onto, add_component, clean}
use ltm.Go.Strings.{trim_space, split}
use ltm.Collector.Components.{is_prefix, matches_rule-clean}
use ltm.Collector.Filter.{
  normalize_onto, normalize_ignore_rules, matches_rule, should_ignore_path, new_ignore_rules,
  default_ignore_paths,
}

-- A rule as it is written: an absolute path below the root.
pub record IsRule (rule : Text) : Type 0 where
  pub rooted : is_rooted (trim_space rule) ≡ true
  pub below_root : resolve (trim_space rule) ≢ []

nonempty : (s : Text) → is_rooted s ≡ true → is_empty s ≡ false
nonempty [] h = cc
nonempty (c ∷ s) h = refl

default-IsRule : All IsRule default_ignore_paths
unfolding trim_space resolve resolve_onto add_component split
default-IsRule = (
  record { rooted = refl; below_root = λ e. cc },
  (
    record { rooted = refl; below_root = λ e. cc },
    (
      record { rooted = refl; below_root = λ e. cc },
      (
        record { rooted = refl; below_root = λ e. cc },
        (
          record { rooted = refl; below_root = λ e. cc },
          (record { rooted = refl; below_root = λ e. cc }, tt),
        ),
      ),
    ),
  ),
)

not_empty : (s : Text) → is_rooted s ≡ true → is_empty s ≡ true → ⊥
not_empty [] h e = cc
not_empty (c ∷ s) h e = cc

regroup : (a m b c : Bool) → (a || m) ≡ a → m ≡ b → (a || c) ≡ (a || (b || c))
regroup a m b c h e = ground arith

spread : (a m b c : Bool) → m ≡ b → ((a || (m || false)) || c) ≡ (a || (b || c))
spread a m b c e = ground arith

any-member :
    (p : Text → Bool) (t : Text) (out : List Text)
    → member t out ≡ true
    → (any p out || p t) ≡ any p out
any-member p t [] h = absurd (cc)
any-member p t (u ∷ out) h = ground (arith, text_eq_iff u t, any-member p t out)

-- The rule begins the path, component by component.
abbrev pub begins : Text → Text → Bool
begins path rule = is_prefix (resolve (trim_space rule)) (resolve path)

module _ (path : Text) (rooted_path : is_rooted path ≡ true) where
  any-normalize_onto :
      (out paths : List Text)
      → All IsRule paths
      → any (matches_rule (clean path)) (normalize_onto out paths)
        ≡ (any (matches_rule (clean path)) out || any (begins path) paths)
  unfolding normalize_onto
  any-normalize_onto out [] h = ground arith
  any-normalize_onto out (rule ∷ paths) (h, hs) =
      go (is_empty (trim_space rule)) refl (member (clean (trim_space rule)) out) refl
        (any-normalize_onto out paths hs)
        (any-normalize_onto (out ++ clean (trim_space rule) ∷ []) paths hs)
    where
      t : Text
      t = clean (trim_space rule)

      matched : matches_rule (clean path) t ≡ begins path rule
      matched = matches_rule-clean path (trim_space rule) rooted_path h.rooted h.below_root

      go :
          (e : Bool)
          → is_empty (trim_space rule) ≡ e
          → (m : Bool) → member t out ≡ m
          → any (matches_rule (clean path)) (normalize_onto out paths)
            ≡ (any (matches_rule (clean path)) out || any (begins path) paths)
          → any (matches_rule (clean path)) (normalize_onto (out ++ t ∷ []) paths)
            ≡ (any (matches_rule (clean path)) (out ++ t ∷ []) || any (begins path) paths)
          → any
              (matches_rule (clean path))
              (normalize_onto (if e || m then out else out ++ t ∷ []) paths)
            ≡ (any (matches_rule (clean path)) out || (begins path rule || any (begins path) paths))
      go true he m hm same more = absurd (not_empty (trim_space rule) h.rooted he)
      go false he true hm same more =
          same
          ∙ regroup (any (matches_rule (clean path)) out) (matches_rule (clean path) t)
              (begins path rule) (any (begins path) paths)
              (any-member (matches_rule (clean path)) t out hm) matched
      go false he false hm same more =
          more
          ∙ ap (λ (b : Bool). b || any (begins path) paths)
              (any-append (matches_rule (clean path)) out (t ∷ []))
          ∙ spread (any (matches_rule (clean path)) out) (matches_rule (clean path) t)
              (begins path rule) (any (begins path) paths) matched

  -- On an absolute path, the rules of the collector ignore it just in case the components of a
  -- default rule or of an extra one, each extra an absolute path below the root, begin the path's.
  pub should_ignore_path-components :
      (extra : List Text)
      → All IsRule extra
      → should_ignore_path (new_ignore_rules extra) path
        ≡ any (begins path) (default_ignore_paths ++ extra)
  unfolding should_ignore_path new_ignore_rules normalize_ignore_rules
  should_ignore_path-components extra h = rw (nonempty path rooted_path) (
      any-normalize_onto [] (default_ignore_paths ++ extra)
        (All-append IsRule default_ignore_paths extra default-IsRule h))
