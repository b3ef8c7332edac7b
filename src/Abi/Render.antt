-- ===== src/Abi/Render.antt =====
-- internal/abi/gen/main.go: the text of the generated header for C, beside those of the Go files.
pub mod Files
unfoldable pub use Files.*
use ltm.Prelude.{
  ℕ, ◌-◌, List, [], ◌∷◌, ◌++◌, Text, codes, is_empty, length, leb, map, replicate, Result, ok, err,
  ◌>>=◌, if◌then◌else◌,
}
use ltm.Go.Numbers.{itoa}
use ltm.Go.Strings.{contains, fields, join, repeat, trim_suffix}
use ltm.Abi.Doc.{
  Tracepoint, TableColumn, TableIndex, Schema, KernelConst, KernelField, KernelLayout, inserted,
  is_nil_list,
}
use ltm.Abi.Stamp.{Panic, backtick, no_base_type, Tools, prepend_c_header, prepend_go_header}

unfoldable pub constant_lines : List KernelConst → Text
unfolding itoa
constant_lines [] = []
constant_lines (c ∷ cs) =
    codes "#define " ++ c.name ++ codes " " ++ itoa c.value ++ codes "\n" ++ constant_lines cs

unfoldable pub field_lines : List KernelField → Text
field_lines [] = []
field_lines (f ∷ fs) =
    codes "\t"
    ++ f.type_text
    ++ codes " "
    ++ f.name
    ++ (if is_empty f.count then [] else codes "[" ++ f.count ++ codes "]")
    ++ codes ";\n"
    ++ field_lines fs

abbrev header_comment : Text
header_comment =
    codes "#pragma once\n\n"
    ++ codes "/*\n"
    ++ codes " * Kernel->userspace transport ABI for ltm capture events. Field order is the\n"
    ++ codes " * on-wire byte order. The integer types (__u64 etc.) are provided by the\n"
    ++ codes " * includer (headers/common.h) before this header.\n"
    ++ codes " */\n\n"

unfoldable pub kernel_event_text : KernelLayout → Text
unfolding constant_lines field_lines
kernel_event_text ke =
    header_comment
    ++ constant_lines ke.constants
    ++ (if is_nil_list ke.constants then [] else codes "\n")
    ++ codes "struct "
    ++ ke.struct_name
    ++ codes " {\n"
    ++ field_lines ke.fields
    ++ codes "};\n"

unfoldable pub kernel_event_header : Tools → Text → KernelLayout → Text
unfolding kernel_event_text prepend_c_header
kernel_event_header t source ke = prepend_c_header t source (kernel_event_text ke)
