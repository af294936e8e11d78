-- ===== src/Update/Consolidate/Extremes.antt =====
-- The four consolidation functions of `update_cdp`, over one whole period of PDPs.
use rrdtool_1_x.Prelude.{
  ℕ, ◌+◌, ◌-◌, ◌%◌, ◌≤◌, ◌<◌, ◌≡◌, refl, true, false, inl, inr, List, [], ◌∷◌, ◌++◌, arith,
  if◌then◌else◌, Bool-cases, sub_u64, add_u64_fits, sub_u64_fits, word, length, length-append, All,
}
use native.Mathlib.Nat.{add-zero}
use rrdtool_1_x.Prelude.Double.{Double, IsIeee}
use rrdtool_1_x.Format.{average, minimum, maximum, last, Cdp}
use rrdtool_1_x.Update.Consolidate.{
  initialize_cdp_val, carry_unknown, calculate_known, calculate_cdp_val, close_row,
}
use rrdtool_1_x.Update.Consolidate.Period.{
  unknowns, fold_known, greater, smaller, feed, IsFresh, fold_known-append, unknowns-append, whole,
  close_row-IsFresh, unknowns-le,
}

module _ {D : Type 0} ⦃d : Double D⦄ (laws : IsIeee D) where
  open d use {nan, inf, of_nat, neg, add, mul, div, lt, is_nan}

  All-true : (vs : List D) → All (λ _. Unit {0}) vs
  All-true [] = tt
  All-true (v ∷ vs) = (tt, All-true vs)

  calc_maximum :
      (a v : D)
      → is_nan a ≡ false
      → Unit {0}
      → is_nan v ≡ false
      → (calculate_cdp_val a v 1 maximum ≡ greater a v) × (is_nan (greater a v) ≡ false)
  unfolding calculate_cdp_val
  calc_maximum a v h u e = ground arith

  calc_minimum :
      (a v : D)
      → is_nan a ≡ false
      → Unit {0}
      → is_nan v ≡ false
      → (calculate_cdp_val a v 1 minimum ≡ smaller a v) × (is_nan (smaller a v) ≡ false)
  unfolding calculate_cdp_val
  calc_minimum a v h u e = ground arith

  calc_last :
      (a v : D)
      → Unit {0}
      → Unit {0}
      → is_nan v ≡ false
      → (calculate_cdp_val a v 1 last ≡ v) × Unit {0}
  unfolding calculate_cdp_val
  calc_last a v h u e = ground arith

  abbrev pub KnownIsFinite : D → Type 0
  KnownIsFinite v = is_nan v ≡ false → (lt (neg inf) v ≡ true) × (lt v inf ≡ true)

  calc_average :
      (a v : D)
      → is_nan a ≡ false
      → KnownIsFinite v
      → is_nan v ≡ false
      → (calculate_cdp_val a v 1 average ≡ add a v) × (is_nan (add a v) ≡ false)
  unfolding calculate_cdp_val
  calc_average a v h g e =
      let (low, high) = g e in
      (rw (h, calculate_known, laws.mul-one_right) refl, laws.add-finite_not_nan a v h low high)

  few : {n : ℕ} (vs : List D) (v : D) → length vs + 1 ≡ n → unknowns (vs ++ v ∷ []) ≤ n
  few vs v e = omega (arith, unknowns-le (vs ++ v ∷ []), length-append vs (v ∷ []))

  closed_maximum :
      (c : Cdp D) (v xff : D) (n : ℕ)
      → is_nan c.val ≡ false
      → c.unkn_pdp_cnt + 1 < word
      → (close_row c maximum v 1 1 n xff).primary_val ≡ (
          if lt (mul (of_nat n) xff) (of_nat (c.unkn_pdp_cnt + (if is_nan v then 1 else 0)))
          then nan
          else (if is_nan v then c.val else greater c.val v))
  unfolding close_row initialize_cdp_val
  closed_maximum c v xff n h k = elim (Bool-cases (is_nan v)) [
    | inl e ↦ rw (e, add_u64_fits c.unkn_pdp_cnt 1 k) (ground (arith, laws.lt-neg_inf c.val))
    | inr e ↦ rw (e, add-zero) (ground (arith, laws.lt-neg_inf c.val))
  ]

  closed_minimum :
      (c : Cdp D) (v xff : D) (n : ℕ)
      → is_nan c.val ≡ false
      → c.unkn_pdp_cnt + 1 < word
      → (close_row c minimum v 1 1 n xff).primary_val ≡ (
          if lt (mul (of_nat n) xff) (of_nat (c.unkn_pdp_cnt + (if is_nan v then 1 else 0)))
          then nan
          else (if is_nan v then c.val else smaller c.val v))
  unfolding close_row initialize_cdp_val
  closed_minimum c v xff n h k = elim (Bool-cases (is_nan v)) [
    | inl e ↦ rw (e, add_u64_fits c.unkn_pdp_cnt 1 k) (ground (arith, laws.lt-inf c.val))
    | inr e ↦ rw (e, add-zero) (ground (arith, laws.lt-inf c.val))
  ]

  closed_last :
      (c : Cdp D) (v xff : D) (n : ℕ)
      → c.unkn_pdp_cnt + 1 < word
      → (close_row c last v 1 1 n xff).primary_val ≡ (
          if lt (mul (of_nat n) xff) (of_nat (c.unkn_pdp_cnt + (if is_nan v then 1 else 0)))
          then nan
          else v)
  unfolding close_row initialize_cdp_val
  closed_last c v xff n k = elim (Bool-cases (is_nan v)) [
    | inl e ↦ rw (e, add_u64_fits c.unkn_pdp_cnt 1 k) (ground (arith))
    | inr e ↦ rw (e, add-zero) (ground (arith))
  ]

  closed_average :
      (c : Cdp D) (v xff : D) (n : ℕ)
      → is_nan c.val ≡ false
      → c.unkn_pdp_cnt + 1 < word
      → let unknown = c.unkn_pdp_cnt + (if is_nan v then 1 else 0) in
        (close_row c average v 1 1 n xff).primary_val ≡ (
          if lt (mul (of_nat n) xff) (of_nat unknown)
          then nan
          else div (if is_nan v then c.val else add c.val v) (of_nat (sub_u64 n unknown)))
  unfolding close_row initialize_cdp_val
  closed_average c v xff n h k = elim (Bool-cases (is_nan v)) [
    | inl e ↦
        rw (e, add_u64_fits c.unkn_pdp_cnt 1 k, h, laws.mul-one_right, laws.add-zero_right)
          (ground arith)
    | inr e ↦ rw (e, add-zero, h, laws.mul-one_right) (ground arith)
  ]

  module _ (n row_cnt : ℕ) (xff : D) (big : 1 < n) (fits : n < word) (rows : 0 < row_cnt) where
    -- Fed the `n` PDPs of a period, one a step, a fresh MAX row gets the greatest of the known ones,
    -- or NaN if more than the fraction `xff` of them is unknown, and the next row starts afresh.
    pub maximum_period :
        (proc : ℕ) (vs : List D) (v : D) (c : Cdp D)
        → IsFresh maximum c
        → proc % n ≡ 0
        → length vs + 1 ≡ n
        → let pdps = vs ++ v ∷ [] in
          let c' = feed maximum n row_cnt xff proc pdps c in
          (c'.primary_val ≡ (
            if lt (mul (of_nat n) xff) (of_nat (unknowns pdps))
            then nan
            else fold_known greater (neg inf) pdps))
          × IsFresh maximum c'
    unfolding carry_unknown
    maximum_period proc vs v c fresh start len =
        let (c1, step, val, unknown, number) =
          whole maximum n row_cnt xff big fits rows greater (λ _. Unit {0}) (λ a. is_nan a ≡ false)
            calc_maximum proc vs v c (All-true vs) fresh laws.neg-inf_not_nan start len in
        rw (step, unknowns-append vs v, fold_known-append greater (neg inf) vs v, ← val, ← unknown)
          (
            closed_maximum c1 v xff n number (omega (arith, unknowns-le vs)),
            close_row-IsFresh maximum n row_cnt xff big fits rows v c1,
          )

    -- Fed the `n` PDPs of a period, one a step, a fresh MIN row gets the least of the known ones, or
    -- NaN if more than the fraction `xff` of them is unknown, and the next row starts afresh.
    pub minimum_period :
        (proc : ℕ) (vs : List D) (v : D) (c : Cdp D)
        → IsFresh minimum c
        → proc % n ≡ 0
        → length vs + 1 ≡ n
        → let pdps = vs ++ v ∷ [] in
          let c' = feed minimum n row_cnt xff proc pdps c in
          (c'.primary_val ≡ (
            if lt (mul (of_nat n) xff) (of_nat (unknowns pdps))
            then nan
            else fold_known smaller inf pdps))
          × IsFresh minimum c'
    unfolding carry_unknown
    minimum_period proc vs v c fresh start len =
        let (c1, step, val, unknown, number) =
          whole minimum n row_cnt xff big fits rows smaller (λ _. Unit {0}) (λ a. is_nan a ≡ false)
            calc_minimum proc vs v c (All-true vs) fresh laws.inf_not_nan start len in
        rw (step, unknowns-append vs v, fold_known-append smaller inf vs v, ← val, ← unknown)
          (
            closed_minimum c1 v xff n number (omega (arith, unknowns-le vs)),
            close_row-IsFresh minimum n row_cnt xff big fits rows v c1,
          )

    -- Fed the `n` PDPs of a period, one a step, a fresh LAST row gets the last of them, known or
    -- not, or NaN if more than the fraction `xff` of them is unknown, and the next row starts
    -- afresh.
    pub last_period :
        (proc : ℕ) (vs : List D) (v : D) (c : Cdp D)
        → IsFresh last c
        → proc % n ≡ 0
        → length vs + 1 ≡ n
        → let pdps = vs ++ v ∷ [] in
          let c' = feed last n row_cnt xff proc pdps c in
          (c'.primary_val ≡ (if lt (mul (of_nat n) xff) (of_nat (unknowns pdps)) then nan else v))
          × IsFresh last c'
    last_period proc vs v c fresh start len =
        let (c1, step, val, unknown, _) =
          whole last n row_cnt xff big fits rows (λ _ v. v) (λ _. Unit {0}) (λ _. Unit {0})
            calc_last proc vs v c (All-true vs) fresh tt start len in
        rw (step, unknowns-append vs v, ← unknown)
          (
            closed_last c1 v xff n (omega (arith, unknowns-le vs)),
            close_row-IsFresh last n row_cnt xff big fits rows v c1,
          )

    -- Fed the `n` PDPs of a period, one a step, of which the known ones before the last are finite,
    -- a fresh AVERAGE row gets the sum of the known ones over their number, or NaN if more than the
    -- fraction `xff` of them is unknown, and the next row starts afresh.
    pub average_period :
        (proc : ℕ) (vs : List D) (v : D) (c : Cdp D)
        → IsFresh average c
        → All KnownIsFinite vs
        → proc % n ≡ 0
        → length vs + 1 ≡ n
        → let pdps = vs ++ v ∷ [] in
          let c' = feed average n row_cnt xff proc pdps c in
          (c'.primary_val ≡ (
            if lt (mul (of_nat n) xff) (of_nat (unknowns pdps))
            then nan
            else div (fold_known add (of_nat 0) pdps) (of_nat (n - unknowns pdps))))
          × IsFresh average c'
    unfolding carry_unknown
    average_period proc vs v c fresh finite start len =
        let (c1, step, val, unknown, number) =
          whole average n row_cnt xff big fits rows add KnownIsFinite (λ a. is_nan a ≡ false)
            calc_average proc vs v c finite fresh (laws.of_nat_not_nan 0) start len in
        rw
          (
            step,
            ← sub_u64_fits n (unknowns (vs ++ v ∷ [])) (few vs v len) fits,
            unknowns-append vs v,
            fold_known-append add (of_nat 0) vs v,
            ← val,
            ← unknown,
          )
          (
            closed_average c1 v xff n number (omega (arith, unknowns-le vs)),
            close_row-IsFresh average n row_cnt xff big fits rows v c1,
          )
