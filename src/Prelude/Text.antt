-- ===== src/Prelude/Text.antt =====
-- String literals as the lists of their bytes.
use Prim.Native.Nat.{ℕ}
use Prim.Native.Char.{code}
use Prim.Native.String.{String}
use mathlib.Core.List.{List, [], ◌∷◌}

-- The code points of a text: its bytes, as the texts here are ASCII.
abbrev pub codes : String → List ℕ
codes String.[] = []
codes (String.◌∷◌ c s) = code c ∷ codes s
