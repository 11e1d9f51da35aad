-- ===== src/Prelude/Text.antt =====
-- String literals as bytes.
use Prim.Native.Char.{code}
use Prim.Native.String.{String}
use mathlib.Core.List.{[], ◌∷◌, ◌++◌}
use redis_c.Prelude.Tests.{Bytes}

abbrev pub text : String → Bytes
text String.[] = []
text (String.◌∷◌ c s) = code c ∷ text s

-- With "\r\n" behind it.
abbrev pub line : String → Bytes
line s = text s ++ (13 ∷ 10 ∷ [])
