-- ===== src/Rpn/Calc/Median.antt =====
-- The first loop of `MEDIAN`: it keeps the known elements, each as often as it occurs.
use rrdtool_1_x.Prelude.{
  ℕ, zero, suc, ◌≤◌, ◌≡◌, refl, ap, inl, inr, List, [], ◌∷◌, arith, if◌then◌else◌, length,
  Bool-cases,
}
use mathlib.Core.List.{Perm}
use mathlib.Core.List.Perm
use rrdtool_1_x.Prelude.Double.{Double}
use rrdtool_1_x.Rpn.{Math}
use rrdtool_1_x.Rpn.Ranges.{split_last, consolidate}

module _ {D : Type 0} ⦃d : Double D⦄ ⦃m : Math D⦄ where
  abbrev pub keep : D → List D → List D
  keep x xs = if d.is_nan x then xs else x ∷ xs

  -- the elements that are not NaN, in order
  abbrev pub known : List D → List D
  known [] = []
  known (x ∷ xs) = keep x (known xs)

  keep-Perm : (x : D) {xs ys : List D} → Perm xs ys → Perm (keep x xs) (keep x ys)
  keep-Perm x p = elim (Bool-cases (d.is_nan x)) [ inl e ↦ rw e p | inr e ↦ rw e (Perm.cons x p) ]

  keep-swap : (x y : D) (xs : List D) → Perm (keep x (keep y xs)) (keep y (keep x xs))
  keep-swap x y xs = elim (Bool-cases (d.is_nan x)) [
    | inl e ↦ rw e (Perm.refl _)
    | inr e ↦ elim (Bool-cases (d.is_nan y)) [
      | inl e2 ↦ rw (e, e2) (Perm.refl _)
      | inr e2 ↦ rw (e, e2) (Perm.swap y x xs)
    ]
  ]

  -- the last element, brought to the front
  known-split_last :
      (x : D) (xs : List D)
      → Perm (known ((split_last x xs).0 ∷ (split_last x xs).1)) (known (x ∷ xs))
  known-split_last x [] = Perm.refl _
  known-split_last x (y ∷ ys) =
      let (l, init) = split_last y ys in
      Perm.trans (keep-swap (split_last y ys).0 x (known (split_last y ys).1))
        (keep-Perm x (known-split_last y ys))

  length-split_last : (x : D) (xs : List D) → length (split_last x xs).1 ≡ length xs
  length-split_last x [] = refl
  length-split_last x (y ∷ ys) = ap suc (length-split_last y ys)

  -- With as much fuel as there are elements, the loop of `MEDIAN` leaves the known elements of its
  -- operands, each as often as it occurs there.
  pub consolidate-Perm :
      (fuel : ℕ) (xs : List D) → length xs ≤ fuel → Perm (consolidate fuel xs) (known xs)
  unfolding consolidate
  consolidate-Perm zero [] h = Perm.refl _
  consolidate-Perm zero (x ∷ xs) h = elim h [ ]
  consolidate-Perm (suc fuel) [] h = Perm.refl _
  consolidate-Perm (suc fuel) (x ∷ []) h = Perm.refl _
  consolidate-Perm (suc fuel) (x ∷ y ∷ ys) h =
      let (l, init) = split_last y ys in
      let rest = consolidate-Perm fuel (y ∷ ys) (omega arith) in
      let moved =
        consolidate-Perm fuel ((split_last y ys).0 ∷ (split_last y ys).1)
          (omega (arith, length-split_last y ys)) in
      elim (Bool-cases (d.is_nan x)) [
        | inl e ↦ rw e (Perm.trans moved (known-split_last y ys))
        | inr e ↦ rw e (Perm.cons x rest)
      ]
