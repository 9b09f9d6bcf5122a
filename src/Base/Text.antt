-- ===== src/Base/Text.antt =====
-- Text literals as their code points.
use Prim.Native.Char.{code}
use Prim.Native.String.{String}
use mathlib.Core.List.{[], ◌∷◌}
use fly_ruler_proto.Base.Equality.{Str}

abbrev pub str : String → Str
str String.[] = []
str (String.◌∷◌ c rest) = code c ∷ str rest
