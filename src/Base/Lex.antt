-- ===== src/Base/Lex.antt =====
-- The lexicographic order on sequences of symbols.
use Prim.Native.Nat.{ℕ}
use mathlib.Core.Bool.{Bool, true, false}
use mathlib.Core.List.{List, [], ◌∷◌}
use suffix_rank.Base.Tests.{ltb, ◌==◌, if◌then◌else◌}

abbrev pub lex_ltb : List ℕ → List ℕ → Bool
lex_ltb [] [] = false
lex_ltb [] (y ∷ ys) = true
lex_ltb (x ∷ xs) [] = false
lex_ltb (x ∷ xs) (y ∷ ys) = if x == y then lex_ltb xs ys else ltb x y
