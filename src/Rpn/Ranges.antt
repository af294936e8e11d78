-- ===== src/Rpn/Ranges.antt =====
-- The operators of `rpn_calc` that take a number of elements off the stack. A stack is the list of
-- its elements, the top first.
use rrdtool_1_x.Prelude.{
  ℕ, zero, suc, ◌-◌, ◌/◌, ◌%◌, Bool, true, false, not, ◌&&◌, ◌||◌, Option, none, some, List, [],
  ◌∷◌, ◌++◌, ltb, ◌==◌, if◌then◌else◌, length, get_elem?, take, drop,
}
use mathlib.Core.List.{reverse}
use rrdtool_1_x.Prelude.Int.{ℤ, pos, negsuc, ltb_ℤ}
use rrdtool_1_x.Prelude.Double.{Double}
use rrdtool_1_x.Rpn.{Math}

-- the messages with which `rpn_calc`, `rpn_parse` and `parseCDEF_DS` give up
pub data Failure : Type 0 where
  stack_underflow vdef_in_rpn bad_percentile final_stack_size : Failure
  empty_expression not_understood variable_not_found garbage : Failure
  not_supported not_compact : Failure

-- A result: the value, an error, or the use of memory that holds no element of the stack (`wild`).
-- `left_out` is an operator that is not modelled.
pub data Run (A : Type 0) : Type 0 where
  ran : A → Run A
  failed : Failure → Run A
  wild : Run A
  left_out : Run A

infixl 5 ◌>>=◌
abbrev pub ◌>>=◌ : {A B : Type 0} → Run A → (A → Run B) → Run B
ran a >>= f = f a
failed e >>= f = failed e
wild >>= f = wild
left_out >>= f = left_out

abbrev pub found : {A : Type 0} → Option A → Run A
found none = wild
found (some a) = ran a

-- `stackunderflow(size)`, for a stack of `length s` elements above the place -1
unfoldable pub need : {D : Type 0} → ℤ → List D → Run (List D)
need size s = if ltb_ℤ (pos (length s)) size then failed stack_underflow else ran s

module _ {D : Type 0} ⦃d : Double D⦄ ⦃m : Math D⦄ where
  open d use {nan, of_nat, add, sub, mul, div, lt, is_nan}

  unfoldable pub rpn_compare_double : D → D → ℤ
  rpn_compare_double x y =
      if is_nan x && is_nan y
      then pos 0
      else if is_nan x
      then negsuc 0
      else if is_nan y
      then pos 1
      else if not (is_zero (m.isinf x))
      then m.isinf x
      else if not (is_zero (m.isinf y))
      then m.isinf y
      else if lt (sub x y) (of_nat 0)
      then negsuc 0
      else if lt (of_nat 0) (sub x y)
      then pos 1
      else pos 0
    where
      is_zero : ℤ → Bool
      is_zero (pos zero) = true
      is_zero _ = false

  -- ascending, from the lowest element of the stack up
  abbrev pub sorted : List D → List D
  sorted xs = m.qsort rpn_compare_double xs

  unfoldable pub sort_elements : ℤ → List D → Run (List D)
  sort_elements (pos n) s = ran (reverse (sorted (reverse (take n s))) ++ drop n s)
  sort_elements (negsuc n) s = wild

  unfoldable pub reverse_elements : ℤ → List D → Run (List D)
  reverse_elements (pos n) s = ran (reverse (take n s) ++ drop n s)
  reverse_elements (negsuc n) s = ran s

  -- the sum and the number of the elements that are known
  unfoldable pub known_sum : List D → D → ℕ → D × ℕ
  known_sum [] sum count = (sum, count)
  known_sum (v ∷ vs) sum count =
      known_sum vs (if is_nan v then sum else add sum v) (if is_nan v then count else suc count)

  abbrev pub mean : D × ℕ → D
  mean (sum, count) = if ltb 0 count then div sum (of_nat count) else nan

  unfoldable pub average_elements : ℤ → List D → Run (List D)
  average_elements (pos n) s = ran (mean (known_sum (take n s) (of_nat 0) 0) ∷ drop n s)
  average_elements (negsuc n) s = ran (nan ∷ s)

  -- the last element, and the others, of a list of `x` and `xs`
  abbrev pub split_last : D → List D → D × List D
  split_last x [] = (x, [])
  split_last x (y ∷ ys) = let (l, init) = split_last y ys in (l, x ∷ init)

  -- The known elements, moved to the front: an unknown one is replaced by the last of the rest. On
  -- fuel, at least as much as there are elements.
  unfoldable pub consolidate : ℕ → List D → List D
  consolidate zero xs = []
  consolidate (suc n) [] = []
  consolidate (suc n) (x ∷ []) = if is_nan x then [] else x ∷ []
  consolidate (suc n) (x ∷ y ∷ ys) =
      let (l, init) = split_last y ys in
      let moved = consolidate n (l ∷ init) in
      let kept = consolidate n (y ∷ ys) in if is_nan x then moved else x ∷ kept

  abbrev pub middle : List D → Run D
  middle [] = ran nan
  middle xs =
      let n = length xs in
      if n % 2 == 1
      then found (get_elem? xs (n / 2))
      else mid_of (get_elem? xs (n / 2)) (get_elem? xs (n / 2 - 1))
    where
      mid_of : Option D → Option D → Run D
      mid_of (some a) (some b) = ran (mul (div (of_nat 1) (of_nat 2)) (add a b))
      mid_of _ _ = wild

  unfoldable pub median_elements : ℤ → List D → Run (List D)
  median_elements (negsuc n) s = wild
  median_elements (pos n) s =
      middle (sort_known (consolidate n (reverse (take n s)))) >>= λ v. ran (v ∷ drop n s)
    where
      sort_known : List D → List D
      sort_known [] = []
      sort_known (x ∷ xs) = sorted (x ∷ xs)

  -- the running mean and sum of squares of `OP_STDEV`
  unfoldable pub deviations : List D → ℕ → D → D → ℕ × D
  deviations [] n mean mean2 = (n, mean2)
  deviations (v ∷ vs) n mean mean2 =
      let delta = sub v mean in
      let mean' = add mean (div delta (of_nat (suc n))) in
      deviations vs (if is_nan v then n else suc n) (if is_nan v then mean else mean')
        (if is_nan v then mean2 else add mean2 (mul delta (sub v mean')))

  unfoldable pub stdev_elements : ℤ → List D → Run (List D)
  stdev_elements (negsuc n) s = wild
  stdev_elements (pos n) s =
      let (count, mean2) = deviations (take n s) 0 (of_nat 0) (of_nat 0) in
      ran ((if ltb count 2 then nan else m.sqrt (div mean2 (of_nat (count - 1)))) ∷ drop n s)

  -- the extreme element so far; `beyond` compares an element with it
  unfoldable pub extreme : (D → D → Bool) → List D → D → D
  extreme beyond [] best = best
  extreme beyond (v ∷ vs) best =
      extreme beyond vs (if is_nan best || beyond v best then v else best)

  unfoldable pub extreme_elements : (D → D → Bool) → ℤ → List D → Run (List D)
  extreme_elements beyond (negsuc n) s = wild
  extreme_elements beyond (pos n) s = ran (extreme beyond (take n s) nan ∷ drop n s)

  -- `OP_PERCENT`: the element at the rounded place, 1 being the lowest; 0 is the one below
  unfoldable pub percent_place : ℤ → List D → List D → Run D
  percent_place (negsuc k) low s = wild
  percent_place (pos zero) low [] = wild
  percent_place (pos zero) low (x ∷ s) = ran x
  percent_place (pos (suc k)) low s = found (get_elem? low k)

  unfoldable pub percent_elements : D → ℤ → List D → Run (List D)
  percent_elements percent (negsuc n) s = wild
  percent_elements percent (pos n) s =
      percent_place (m.to_int (m.round (div (mul percent (of_nat n)) (of_nat 100))))
        (sorted (reverse (take n s))) (drop n s)
      >>= λ v. ran (v ∷ drop n s)

  unfoldable pub percent : List D → Run (List D)
  percent (elements ∷ p ∷ x ∷ s) =
      if not (is_nan p) && not (lt p (of_nat 0)) && not (lt (of_nat 100) p)
      then need (m.to_int elements) (x ∷ s) >>= percent_elements p (m.to_int elements)
      else failed bad_percentile
  percent _ = failed stack_underflow

  -- an operator that pops the number of its elements, which must be on the stack
  unfoldable pub with_count : (ℤ → List D → Run (List D)) → List D → Run (List D)
  with_count f [] = failed stack_underflow
  with_count f (x ∷ s) = need (m.to_int x) s >>= f (m.to_int x)

  unfoldable pub index : List D → Run (List D)
  index [] = failed stack_underflow
  index (x ∷ s) = index_at (m.to_int x)
    where
      index_at : ℤ → Run (List D)
      index_at (negsuc n) = wild
      index_at (pos n) =
          if ltb (length s) n
          then failed stack_underflow
          else found (get_elem? (x ∷ s) n) >>= λ v. ran (v ∷ s)
