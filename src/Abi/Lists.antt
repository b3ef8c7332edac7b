-- ===== src/Abi/Lists.antt =====
-- The column lists that internal/abi/gen/main.go writes for the storage package.
use ltm.Prelude.{List, [], ◌∷◌, ◌++◌, Text, codes, length, map, ◌≡◌, refl, ap}
use ltm.Go.Strings.{join, repeat, trim_suffix}
use ltm.Abi.Doc.{TableColumn}
use ltm.Abi.Render.{insert_names, placeholder_list}

-- n question marks, as a list.
abbrev marks_of : List Text → List Text
marks_of = map (λ (name : Text). codes "?")

trim_suffix-repeat :
    (names : List Text)
    → trim_suffix (repeat (codes "?, ") (length names)) (codes ", ")
      ≡ join (marks_of names) (codes ", ")
unfolding trim_suffix repeat join
trim_suffix-repeat [] = refl
trim_suffix-repeat (a ∷ []) = refl
trim_suffix-repeat (a ∷ b ∷ names) = ap (λ s. codes "?, " ++ s) (trim_suffix-repeat (b ∷ names))

-- The placeholders are as many as the columns to insert, one for each, and separated like them.
placeholder_list-insert_names :
    (cs : List TableColumn)
    → placeholder_list cs ≡ join (map (λ (name : Text). codes "?") (insert_names cs)) (codes ", ")
unfolding placeholder_list
placeholder_list-insert_names cs = trim_suffix-repeat (insert_names cs)
