-- ===== src/Collector/Filter.antt =====
-- internal/collector/filter.go.
use ltm.Prelude.{
  Bool, false, ◌||◌, List, [], ◌∷◌, ◌++◌, Text, codes, text_eq, is_empty, member, any,
  if◌then◌else◌,
}
use ltm.Go.Filepath.{clean}
use ltm.Go.Strings.{has_prefix, trim_space}

abbrev pub default_ignore_paths : List Text
default_ignore_paths =
    codes "/proc"
    ∷ codes "/sys"
    ∷ codes "/dev"
    ∷ codes "/var/cache/apt"
    ∷ codes "/var/cache/dnf"
    ∷ codes "/var/cache/pacman"
    ∷ []

-- The loop; `seen` has just the paths of `out`.
unfoldable pub normalize_onto : List Text → List Text → List Text
normalize_onto out [] = out
normalize_onto out (path ∷ paths) =
    let cleaned = clean (trim_space path) in
    normalize_onto
      (if is_empty (trim_space path) || member cleaned out then out else out ++ cleaned ∷ []) paths

unfoldable pub normalize_ignore_rules : List Text → List Text
normalize_ignore_rules paths = normalize_onto [] paths

unfoldable pub new_ignore_rules : List Text → List Text
new_ignore_rules extra = normalize_ignore_rules (default_ignore_paths ++ extra)

-- The rule itself or a path beneath it.
unfoldable pub matches_rule : Text → Text → Bool
matches_rule normalized rule = text_eq normalized rule || has_prefix normalized (rule ++ codes "/")

unfoldable pub should_ignore_path : List Text → Text → Bool
should_ignore_path rules path =
    if is_empty path then false else any (matches_rule (clean path)) rules
