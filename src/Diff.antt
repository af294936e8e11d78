-- ===== src/Diff.antt =====
-- src/rrd_diff.c: `rrd_diff`, the difference of two long integers that are given as strings.
-- Strings are lists of character codes; digits are worked on from the last one to the first, as the
-- pointers of the loop walk.
pub mod Value
use rrdtool_1_x.Prelude.{
  ℕ, ◌+◌, ◌-◌, Bool, false, not, ◌&&◌, ◌||◌, List, [], ◌∷◌, ltb, leb, ◌==◌, if◌then◌else◌, length,
}
use Prim.Native.Nat.{max}
use mathlib.Core.List.{reverse}

abbrev pub is_digit : ℕ → Bool
is_digit x = leb b'0' x && leb x b'9'

-- LAST_DS_LEN
abbrev pub last_ds_len : ℕ
last_ds_len = 30

-- what stands before the first digit, with a sign or without
unfoldable pub skip_to_digit : Bool → List ℕ → Bool × List ℕ
skip_to_digit neg [] = (neg, [])
skip_to_digit neg (x ∷ xs) =
    let rest = skip_to_digit (neg || (x == b'-')) xs in if is_digit x then (neg, x ∷ xs) else rest

-- the digits up to the first other character, where the string is cut
unfoldable pub digits_of : List ℕ → List ℕ
digits_of [] = []
digits_of (x ∷ xs) = if is_digit x then x ∷ digits_of xs else []

-- the character that the loop stores, brought back to a digit, and the borrow
unfoldable pub settle : ℕ → ℕ × ℕ
settle r = if ltb r b'0' then (r + 10, 1) else if ltb b'9' r then (r - 10, 1) else (r, 0)

-- The loop over the digits, last ones first: the digits of the result and the last borrow.
unfoldable pub subtract : List ℕ → List ℕ → ℕ → List ℕ × ℕ
unfolding settle
subtract [] [] c = ([], c)
subtract (x ∷ a) (y ∷ b) c =
    let (r, c') = settle (x + b'0' - c - y) in let (rs, c'') = subtract a b c' in (r ∷ rs, c'')
subtract (x ∷ a) [] c =
    let (r, c') = settle (x - c) in let (rs, c'') = subtract a [] c' in (r ∷ rs, c'')
subtract [] (y ∷ b) c =
    let (r, c') = settle (b'0' + b'0' - y - c) in let (rs, c'') = subtract [] b c' in (r ∷ rs, c'')

-- The loop after a last borrow, which turns the result into its ten's complement. What it reads are
-- digits, so its test of that does not end it.
unfoldable pub complement : List ℕ → ℕ → List ℕ × ℕ
complement [] c = ([], c)
complement (r ∷ rs) c =
    let s = b'9' + b'0' + c - r in
    let (d, c') : ℕ × ℕ = if ltb b'9' s then (s - 10, 1) else (s, 0) in
    let (ds, c'') = complement rs c' in (d ∷ ds, c'')

-- What `rrd_diff` hands to `rrd_strtodbl`, digits first to last, and whether the result is negated.
-- `overrun` is a write past the end of `res`, after which C says nothing.
pub data Difference : Type 0 where
  unknown overrun : Difference
  known : (negated : Bool) → (res : List ℕ) → Difference

-- `sizeof(res)`
abbrev pub res_size : ℕ
res_size = last_ds_len + 1

-- Spaces are written to `res` from 0 up to `r1`, the index m + 1, and the NUL to `r1[1]`; the loops
-- write from `r1` down. So `r1[1]` is the greatest index that is written.
unfoldable pub diff_digits : List ℕ → List ℕ → Bool → Difference
diff_digits a b both_negative =
    let r1 = max (length a) (length b) + 1 in
    let (res, c) = subtract (reverse a) (reverse b) 0 in
    if leb res_size (r1 + 1)
    then overrun
    else if c == 0
    then known both_negative (reverse res)
    else known (not both_negative) (reverse (complement res c).0)

unfoldable pub rrd_diff : List ℕ → List ℕ → Difference
rrd_diff a b =
    let (a_neg, a') = skip_to_digit false a in
    let (b_neg, b') = skip_to_digit false b in
    let a'' = digits_of a' in
    let b'' = digits_of b' in
    if (length a'' == 0) || (length b'' == 0)
    then unknown
    else if (a_neg && not b_neg) || (b_neg && not a_neg)
    then unknown
    else if ltb last_ds_len (max (length a'') (length b''))
    then unknown
    else diff_digits a'' b'' (a_neg && b_neg)
