-- ===== src/Prelude/Text.antt =====
-- C strings as the lists of their bytes, without the closing NUL.
use Prim.Native.Char.{code}
use Prim.Native.Nat.{ℕ}
use Prim.Native.String.{String}
use mathlib.Core.Path.{◌≡◌, refl}
use mathlib.Core.Bool.{Bool, true, false, ◌&&◌}
use mathlib.Core.List.{List, [], ◌∷◌}
use native.Mathlib.Omega.{arith}
use rrdtool_1_x.Prelude.Tests.{◌==◌}

abbrev pub codes : String → List ℕ
codes String.[] = []
codes (String.◌∷◌ c s) = code c ∷ codes s

-- `strcmp(a, b) == 0`
unfoldable pub str_eq : List ℕ → List ℕ → Bool
str_eq [] [] = true
str_eq (x ∷ xs) (y ∷ ys) = x == y && str_eq xs ys
str_eq _ _ = false

pub str_eq→eq : (a b : List ℕ) → str_eq a b ≡ true → a ≡ b
unfolding str_eq
str_eq→eq [] [] h = refl
str_eq→eq [] (y ∷ ys) h = ground arith
str_eq→eq (x ∷ xs) [] h = ground arith
str_eq→eq (x ∷ xs) (y ∷ ys) h = ground (arith, str_eq→eq xs ys)

pub str_eq_self : (a : List ℕ) → str_eq a a ≡ true
unfolding str_eq
str_eq_self [] = refl
str_eq_self (x ∷ xs) = ground (arith, str_eq_self xs)
