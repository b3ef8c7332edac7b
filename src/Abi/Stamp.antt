-- ===== src/Abi/Stamp.antt =====
-- internal/abi/gen/main.go: the header with a content hash that the generator puts before a file's
-- body, and how it is read back.
use ltm.Prelude.{
  ℕ, suc, zero, List, [], ◌∷◌, ◌++◌, Text, codes, Option, none, some, is_empty, if◌then◌else◌,
  Result, ok, err,
}
use ltm.Go.Strings.{cut, has_prefix, strip_prefix, trim_space}

-- fmt's %q, go/format's Source (`none` is its error) and the digest of crypto/sha256 in hexadecimal.
pub record Tools : Type 0 where
  pub quote : Text → Text
  pub format_source : Text → Option Text
  pub hash : Text → Text

-- The panics of the generator: a backtick in a raw literal, a body that is no Go, and the first field
-- of a type without one.
pub data Panic : Type 0 where
  backtick : Panic
  unformatted : Text → Panic
  no_base_type : Panic

-- The header's two lines and the blank line.
unfoldable pub go_header : Text → Text → Text
go_header source digest =
    codes "// Code generated by internal/abi/gen from "
    ++ source
    ++ codes "; DO NOT EDIT.\n// sha256: "
    ++ digest
    ++ codes "\n\n"

unfoldable pub c_header : Text → Text → Text
c_header source digest =
    codes "/* Code generated by internal/abi/gen from "
    ++ source
    ++ codes "; DO NOT EDIT. */\n// sha256: "
    ++ digest
    ++ codes "\n\n"

unfoldable pub prepend_go_header : Tools → Text → Text → Result Panic Text
unfolding go_header
prepend_go_header t source body = elim (t.format_source body) [
  | none ↦ err (unformatted body)
  | some formatted ↦ ok (go_header source (t.hash formatted) ++ formatted)
]

unfoldable pub prepend_c_header : Tools → Text → Text → Text
unfolding c_header
prepend_c_header t source body = c_header source (t.hash body) ++ body

-- bytes.SplitN with a separator of one character: at most one part more than the number.
unfoldable pub split_n : ℕ → ℕ → Text → List Text
unfolding cut
split_n sep zero s = s ∷ []
split_n sep (suc n) s = elim (cut s (sep ∷ [])) [
  | none ↦ s ∷ []
  | some parts ↦ parts.0 ∷ split_n sep n parts.1
]

abbrev pub hash_prefix : Text
hash_prefix = codes "// sha256: "

-- strings.TrimPrefix.
abbrev or_whole : Text → Option Text → Text
or_whole s none = s
or_whole s (some rest) = rest

abbrev trim_prefix : Text → Text → Text
trim_prefix s prefix = or_whole s (strip_prefix prefix s)

-- The lines of the header, when there are four parts.
unfoldable pub read_header : List Text → Option (Text × Text)
unfolding has_prefix strip_prefix trim_space
read_header (line1 ∷ line2 ∷ line3 ∷ body ∷ []) =
    if has_prefix line2 hash_prefix
    then (if is_empty (trim_space line3)
        then some (trim_space (trim_prefix line2 hash_prefix), body)
        else none)
    else none
read_header _ = none

unfoldable pub split_generated_header : Text → Option (Text × Text)
unfolding split_n read_header
split_generated_header content = read_header (split_n 10 3 content)
