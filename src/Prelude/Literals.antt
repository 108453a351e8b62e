-- ===== src/Prelude/Literals.antt =====
-- The texts of the source: a literal of bytes, all of them ASCII. `String` has its own `[]` and `∷`.
use Prim.Native.Char.{code}
use Prim.Native.Nat.{ℕ}
use Prim.Native.String.{String, [], ◌∷◌}
use mathlib.Core.List

unfoldable pub codes : String → List.List ℕ
codes [] = List.[]
codes (c ∷ s) = List.◌∷◌ (code c) (codes s)
