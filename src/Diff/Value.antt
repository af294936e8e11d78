-- ===== src/Diff/Value.antt =====
-- `rrd_diff` computes the difference of the numbers that its arguments spell.
use rrdtool_1_x.Prelude.{
  ℕ, zero, suc, ◌+◌, ◌-◌, ◌*◌, ◌≤◌, ◌<◌, ◌≡◌, refl, ap, sym, ◌∙◌, Bool, true, false, not, leb, ◌⊎◌,
  inl, inr, Option, none, some, List, [], ◌∷◌, ◌++◌, arith, ltb, ◌==◌, if◌then◌else◌, length, All,
  Bool-cases,
}
use Prim.Native.Nat.{max}
use native.Mathlib.Decide.{dec_lt}
use mathlib.Core.List.{reverse, reverse-reverse, reverse-append}
use rrdtool_1_x.Prelude.Int.{ℤ, pos, sub_ℕ}
use rrdtool_1_x.Diff.{
  last_ds_len, skip_to_digit, digits_of, settle, subtract, complement, diff_digits, Difference,
  known, unknown, overrun, rrd_diff,
}

abbrev pub IsDigit : ℕ → Type 0
IsDigit x = (b'0' ≤ x) × (x ≤ b'9')

-- the number that digits spell, the last one first
abbrev pub units_first : List ℕ → ℕ
units_first [] = 0
units_first (x ∷ xs) = (x - b'0') + 10 * units_first xs

abbrev pub ten_to : List ℕ → ℕ
ten_to [] = 1
ten_to (x ∷ xs) = 10 * ten_to xs

settle_lem :
    (r : ℕ)
    → b'0' ≤ r + 10
    → r ≤ b'9'
    → let (d, c) = settle r in IsDigit d × (c ≤ 1) × (d ≡ r + 10 * c)
unfolding settle
settle_lem r h k = ground arith

-- The digits left to right of the borrow: a - b - c = res - 10 ^ m * borrow.
subtract_lem :
    (a b : List ℕ) (c : ℕ)
    → All IsDigit a
    → All IsDigit b
    → c ≤ 1
    → let (res, c') = subtract a b c in
      All IsDigit res
      × (c' ≤ 1)
      × (units_first a + c' * ten_to res ≡ units_first b + c + units_first res)
unfolding subtract
subtract_lem [] [] c ha hb hc = (tt, hc, omega arith)
subtract_lem (x ∷ a) (y ∷ b) c ha hb hc =
    let (digit, borrow, value) = settle_lem (x + b'0' - c - y) (omega arith) (omega arith) in
    let (digits, last, sum) = subtract_lem a b (settle (x + b'0' - c - y)).1 ha.1 hb.1 borrow in
    ((digit, digits), last, omega arith)
subtract_lem (x ∷ a) [] c ha hb hc =
    let (digit, borrow, value) = settle_lem (x - c) (omega arith) (omega arith) in
    let (digits, last, sum) = subtract_lem a [] (settle (x - c)).1 ha.1 tt borrow in
    ((digit, digits), last, omega arith)
subtract_lem [] (y ∷ b) c ha hb hc =
    let (digit, borrow, value) = settle_lem (b'0' + b'0' - y - c) (omega arith) (omega arith) in
    let (digits, last, sum) = subtract_lem [] b (settle (b'0' + b'0' - y - c)).1 tt hb.1 borrow in
    ((digit, digits), last, omega arith)

complement_lem :
    (rs : List ℕ) (c : ℕ)
    → All IsDigit rs
    → c ≤ 1
    → let (ds, c') = complement rs c in
      All IsDigit ds
      × (c' ≤ 1)
      × (units_first ds + units_first rs + 1 + c' * ten_to rs ≡ ten_to rs + c)
unfolding complement
complement_lem [] c h hc = (tt, hc, omega arith)
complement_lem (r ∷ rs) c h hc = elim (Bool-cases (ltb b'9' (b'9' + b'0' + c - r))) [
  | inl e ↦
      let (digits, last, sum) = complement_lem rs 1 h.1 (omega arith) in
      rw e (ground (arith, h.0, digits, last, sum))
  | inr e ↦
      let (digits, last, sum) = complement_lem rs 0 h.1 (omega arith) in
      rw e (ground (arith, h.0, digits, last, sum))
]

units_first-lt : (xs : List ℕ) → All IsDigit xs → units_first xs < ten_to xs
units_first-lt [] h = omega arith
units_first-lt (x ∷ xs) h = omega (arith, h.0, units_first-lt xs h.1)

-- the number that digits spell, the first one first
abbrev pub number_from : ℕ → List ℕ → ℕ
number_from acc [] = acc
number_from acc (x ∷ xs) = number_from (10 * acc + (x - b'0')) xs

abbrev pub number : List ℕ → ℕ
number = number_from 0

number_from-snoc :
    (acc : ℕ) (xs : List ℕ) (y : ℕ)
    → number_from acc (xs ++ y ∷ []) ≡ 10 * number_from acc xs + (y - b'0')
number_from-snoc acc [] y = refl
number_from-snoc acc (x ∷ xs) y = number_from-snoc (10 * acc + (x - b'0')) xs y

number-reverse : (xs : List ℕ) → number (reverse xs) ≡ units_first xs
number-reverse [] = refl
number-reverse (x ∷ xs) =
    ap number (reverse-append (x ∷ []) xs)
    ∙ number_from-snoc 0 (reverse xs) x
    ∙ omega (arith, number-reverse xs)

units_first-reverse : (xs : List ℕ) → units_first (reverse xs) ≡ number xs
units_first-reverse xs = sym (number-reverse (reverse xs)) ∙ ap number (reverse-reverse xs)

All-snoc : (xs : List ℕ) (y : ℕ) → All IsDigit xs → IsDigit y → All IsDigit (xs ++ y ∷ [])
All-snoc [] y h k = (k, tt)
All-snoc (x ∷ xs) y h k = (h.0, All-snoc xs y h.1 k)

All-reverse : (xs : List ℕ) → All IsDigit xs → All IsDigit (reverse xs)
All-reverse [] h = tt
All-reverse (x ∷ xs) h =
    rw (reverse-append (x ∷ []) xs) (All-snoc (reverse xs) x (All-reverse xs h.1) h.0)

abbrev pub signed : Bool → ℕ → ℤ
signed negated n = if negated then sub_ℕ 0 n else pos n

abbrev pub meaning : Difference → Option ℤ
meaning unknown = none
meaning overrun = none
meaning (known negated res) = some (signed negated (number res))

-- a number as an update gives it, with a sign or without
abbrev pub spell : Bool → List ℕ → List ℕ
spell negative digits = if negative then b'-' ∷ digits else digits

abbrev pub minus : Bool → ℕ → ℕ → ℤ
minus both_negative a b = if both_negative then sub_ℕ b a else sub_ℕ a b

-- the result has room for the second number
subtract_width : (a b : List ℕ) (c : ℕ) → ten_to b ≤ ten_to (subtract a b c).0
unfolding subtract
subtract_width [] [] c = omega arith
subtract_width (x ∷ a) (y ∷ b) c = omega (arith, subtract_width a b (settle (x + b'0' - c - y)).1)
subtract_width (x ∷ a) [] c = omega (arith, subtract_width a [] (settle (x - c)).1)
subtract_width [] (y ∷ b) c = omega (arith, subtract_width [] b (settle (b'0' + b'0' - y - c)).1)

signed-minus : (neg : Bool) (a b n : ℕ) → a ≡ b + n → signed neg n ≡ minus neg a b
signed-minus true a b n e = ground arith
signed-minus false a b n e = ground arith

signed-minus-not : (neg : Bool) (a b n : ℕ) → b ≡ a + n → signed (not neg) n ≡ minus neg a b
signed-minus-not true a b n e = ground arith
signed-minus-not false a b n e = ground arith

no_borrow :
    (a b t r v k : ℕ) → k ≤ 1 → b < t → a + 1 * t ≡ b + r → v + r + 1 + k * t ≡ t + 1 → b ≡ a + v
no_borrow a b t r v zero h l e f = omega arith
no_borrow a b t r v (suc zero) h l e f = omega arith
no_borrow a b t r v (suc (suc k)) h l e f = absurd (omega arith)

-- the choice by the last borrow
finish :
    (res : List ℕ) (c : ℕ) (neg : Bool) (a b : ℕ)
    → All IsDigit res
    → c ≤ 1
    → b < ten_to res
    → a + c * ten_to res ≡ b + units_first res
    → meaning
        (if c == 0 then known neg (reverse res) else known (not neg) (reverse (complement res c).0))
      ≡ some (minus neg a b)
finish res zero neg a b digits h small sum =
    rw (number-reverse res) (ap some (signed-minus neg a b (units_first res) (omega arith)))
finish res (suc zero) neg a b digits h small sum =
    let (cdigits, cborrow, csum) = complement_lem res 1 digits (omega arith) in
    rw (number-reverse (complement res 1).0) (
      ap some (
        signed-minus-not neg a b (units_first (complement res 1).0) (
          no_borrow a b (ten_to res) (units_first res) (units_first (complement res 1).0)
            (complement res 1).1 cborrow small sum csum)))
finish res (suc (suc c)) neg a b digits h small sum = absurd (omega arith)

diff_digits_lem :
    (a b : List ℕ) (neg : Bool)
    → All IsDigit a
    → All IsDigit b
    → length a ≤ 28
    → length b ≤ 28
    → meaning (diff_digits a b neg) ≡ some (minus neg (number a) (number b))
unfolding diff_digits
diff_digits_lem a b neg ha hb la lb =
    let inside : leb 31 (max (length a) (length b) + 1 + 1) ≡ false = ground (arith, la, lb) in
    let (digits, borrow, sum) =
      subtract_lem (reverse a) (reverse b) 0 (All-reverse a ha) (All-reverse b hb) (omega arith) in
    let va = units_first-reverse a in
    let vb = units_first-reverse b in
    let room = units_first-lt (reverse b) (All-reverse b hb) in
    rw inside (
      finish (subtract (reverse a) (reverse b) 0).0 (subtract (reverse a) (reverse b) 0).1 neg
        (number a) (number b) digits borrow
        (omega (arith, subtract_width (reverse a) (reverse b) 0)) (omega arith))

digits_of_self : (xs : List ℕ) → All IsDigit xs → digits_of xs ≡ xs
unfolding digits_of
digits_of_self [] h = refl
digits_of_self (x ∷ xs) h = ground (arith, h.0, digits_of_self xs h.1)

skip_spell :
    (neg : Bool) (xs : List ℕ)
    → All IsDigit xs
    → 0 < length xs
    → skip_to_digit false (spell neg xs) ≡ (neg, xs)
unfolding skip_to_digit
skip_spell neg [] h k = absurd (omega arith)
skip_spell true (x ∷ xs) h k = ground (arith, h.0)
skip_spell false (x ∷ xs) h k = ground (arith, h.0)

-- a difference of two numbers with the same sign, of which neither is cut off
same_sign_lem :
    (neg : Bool) (a b : List ℕ)
    → All IsDigit a
    → All IsDigit b
    → 0 < length a
    → 0 < length b
    → length a ≤ last_ds_len
    → length b ≤ last_ds_len
    → rrd_diff (spell neg a) (spell neg b) ≡ diff_digits a b neg
unfolding rrd_diff
same_sign_lem true a b ha hb pa pb la lb =
    rw (skip_spell true a ha pa, skip_spell true b hb pb, digits_of_self a ha, digits_of_self b hb)
      (ground arith)
same_sign_lem false a b ha hb pa pb la lb =
    rw
      (skip_spell false a ha pa, skip_spell false b hb pb, digits_of_self a ha, digits_of_self b hb)
      (ground arith)

-- For two numbers of at most 28 digits with the same sign, `rrd_diff` is their exact difference.
pub rrd_diff_lem :
    (neg : Bool) (a b : List ℕ)
    → All IsDigit a
    → All IsDigit b
    → 0 < length a
    → 0 < length b
    → length a ≤ 28
    → length b ≤ 28
    → meaning (rrd_diff (spell neg a) (spell neg b)) ≡ some (minus neg (number a) (number b))
rrd_diff_lem neg a b ha hb pa pb la lb =
    ap meaning (same_sign_lem neg a b ha hb pa pb (omega arith) (omega arith))
    ∙ diff_digits_lem a b neg ha hb la lb

-- For two numbers of different signs, of any length, `rrd_diff` is unknown.
pub rrd_diff_mixed :
    (neg : Bool) (a b : List ℕ)
    → All IsDigit a
    → All IsDigit b
    → 0 < length a
    → 0 < length b
    → rrd_diff (spell neg a) (spell (not neg) b) ≡ unknown
unfolding rrd_diff
rrd_diff_mixed true a b ha hb pa pb =
    rw (skip_spell true a ha pa, skip_spell false b hb pb) (ground arith)
rrd_diff_mixed false a b ha hb pa pb =
    rw (skip_spell false a ha pa, skip_spell true b hb pb) (ground arith)

-- For two numbers of the same sign and of at most 30 digits, `rrd_diff` writes past the end of `res`
-- exactly if one of them has 29 digits or more: its length check lets these through.
pub rrd_diff_overruns :
    (neg : Bool) (a b : List ℕ)
    → All IsDigit a
    → All IsDigit b
    → 0 < length a
    → 0 < length b
    → length a ≤ last_ds_len
    → length b ≤ last_ds_len
    → ((29 ≤ length a) ⊎ (29 ≤ length b) → rrd_diff (spell neg a) (spell neg b) ≡ overrun)
      × (rrd_diff (spell neg a) (spell neg b) ≡ overrun → (29 ≤ length a) ⊎ (29 ≤ length b))
unfolding diff_digits
rrd_diff_overruns neg a b ha hb pa pb la lb =
    let same = same_sign_lem neg a b ha hb pa pb la lb in
    (
      λ long. same ∙ overruns long,
      λ ran_over. elim (dec_lt 28 (length a)) [
        | yes big ↦ inl (omega (arith, big))
        | no small ↦ elim (dec_lt 28 (length b)) [
          | yes big ↦ inr (omega (arith, big))
          | no small_too ↦
              let value =
                diff_digits_lem a b neg ha hb (omega (arith, small)) (omega (arith, small_too)) in
              absurd (none_some (ap meaning (sym ran_over ∙ same) ∙ value))
        ]
      ],
    )
  where
    none_some : {z : ℤ} → none ≡ some z → ⊥
    none_some h = cc

    overruns : (29 ≤ length a) ⊎ (29 ≤ length b) → diff_digits a b neg ≡ overrun
    overruns (inl long) = ground (arith, long)
    overruns (inr long) = ground (arith, long)
