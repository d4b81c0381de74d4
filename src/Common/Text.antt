-- ===== src/Common/Text.antt =====
-- The bytes of an ASCII text, so that the program's literals read as in the source.
use Prim.Native.Char.{code}
use Prim.Native.String.{String}
use mathlib.Core.List.{[], ◌∷◌}
use tst.Common.Lists.{Bytes}

abbrev pub codes : String → Bytes
codes String.[] = []
codes (String.◌∷◌ c s) = code c ∷ codes s
