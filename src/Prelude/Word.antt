-- ===== src/Prelude/Word.antt =====
-- `unsigned long` arithmetic: 64 bits, wrapping round. The operations stay shut; where the true
-- result fits, the lemmas give it.
use Prim.Native.Nat.{ℕ, ◌+◌, ◌-◌, ◌*◌, ◌%◌, ◌^◌, ◌≤◌, ◌<◌}
use mathlib.Core.Path.{◌≡◌}
use native.Mathlib.Nat.{mod-eq_of_lt}
use native.Mathlib.Omega.{arith}

abbrev pub word : ℕ
word = 2 ^ 64

unfoldable pub add_u64 : ℕ → ℕ → ℕ
add_u64 a b = (a + b) % word

unfoldable pub sub_u64 : ℕ → ℕ → ℕ
sub_u64 a b = (a + word - b) % word

unfoldable pub mul_u64 : ℕ → ℕ → ℕ
mul_u64 a b = (a * b) % word

pub add_u64_fits : (a b : ℕ) → a + b < word → add_u64 a b ≡ a + b
unfolding add_u64
add_u64_fits a b h = mod-eq_of_lt h

pub sub_u64_fits : (a b : ℕ) → b ≤ a → a < word → sub_u64 a b ≡ a - b
unfolding sub_u64
sub_u64_fits a b h k = omega arith

pub mul_u64_fits : (a b : ℕ) → a * b < word → mul_u64 a b ≡ a * b
unfolding mul_u64
mul_u64_fits a b h = mod-eq_of_lt h
