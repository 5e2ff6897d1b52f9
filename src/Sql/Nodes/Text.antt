-- ===== src/Sql/Nodes/Text.antt =====
-- `char *`: a text, or the null pointer.
use Prim.Native.String.{String}
use mathlib.Core.Option.{Option}

abbrev pub CString : Type 0
CString = Option String
