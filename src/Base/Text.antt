-- ===== src/Base/Text.antt =====
-- A text literal as its bytes, for texts of ASCII characters.
use Prim.Native.Char.{code}
use Prim.Native.String.{String}
use mathlib.Core.List.{[], ◌∷◌}
use crosspuck.Base.Words.{Bytes}

abbrev pub ascii : String → Bytes
ascii String.[] = []
ascii (String.◌∷◌ c s) = code c ∷ ascii s
