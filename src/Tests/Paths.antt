-- ===== src/Tests/Paths.antt =====
-- The ignore rules of the collector, at a concrete path.
use ltm.Prelude.{◌≡◌, refl, [], ◌∷◌, ◌++◌, Text, codes, any}
use ltm.Collector.Filter.{default_ignore_paths, new_ignore_rules, should_ignore_path}
use ltm.Collector.Ignores.{begins, should_ignore_path-components}
use ltm.Go.Filepath.{add_component, is_rooted, resolve, resolve_onto}
use ltm.Go.Strings.{is_space, split, trim_left, trim_space}

abbrev log_path : Text
log_path = codes "/var/log/../tmp//x"

should_ignore_path-components_example :
    should_ignore_path (new_ignore_rules (codes "/var/tmp" ∷ [])) log_path
    ≡ any (begins log_path) (default_ignore_paths ++ codes "/var/tmp" ∷ [])
unfolding trim_space trim_left is_space is_rooted resolve resolve_onto add_component split
should_ignore_path-components_example =
    should_ignore_path-components log_path refl (codes "/var/tmp" ∷ [])
      (record { rooted = refl; below_root = λ e. cc }, tt)
