-- ===== src/Prelude/Slices.antt =====
-- `take` and `drop` of lists joined together.
use Prim.Native.Nat.{ℕ, zero, suc, ◌+◌, ◌-◌, ◌≤◌}
use mathlib.Core.Path.{◌≡◌, refl, sym, ap, ◌∙◌}
use mathlib.Core.List.{List, [], ◌∷◌, ◌++◌}
use native.Mathlib.Omega.{arith}
use rrdtool_1_x.Prelude.Lists.{length, take, drop}

module _ {ℓ} {A : Type ℓ} where
  pub take-all : (n : ℕ) (xs : List A) → length xs ≤ n → take n xs ≡ xs
  take-all zero [] h = refl
  take-all zero (x ∷ xs) h = absurd (omega arith)
  take-all (suc n) [] h = refl
  take-all (suc n) (x ∷ xs) h = ap (λ ys. x ∷ ys) (take-all n xs (omega arith))

  pub drop-all : (n : ℕ) (xs : List A) → length xs ≤ n → drop n xs ≡ []
  drop-all zero [] h = refl
  drop-all zero (x ∷ xs) h = absurd (omega arith)
  drop-all (suc n) [] h = refl
  drop-all (suc n) (x ∷ xs) h = drop-all n xs (omega arith)

  pub take-drop : (n : ℕ) (xs : List A) → take n xs ++ drop n xs ≡ xs
  take-drop zero xs = refl
  take-drop (suc n) [] = refl
  take-drop (suc n) (x ∷ xs) = ap (λ ys. x ∷ ys) (take-drop n xs)

  pub length-take : (n : ℕ) (xs : List A) → n ≤ length xs → length (take n xs) ≡ n
  length-take zero xs h = refl
  length-take (suc n) [] h = absurd (omega arith)
  length-take (suc n) (x ∷ xs) h = ap suc (length-take n xs (omega arith))

  pub length-drop : (n : ℕ) (xs : List A) → length (drop n xs) ≡ length xs - n
  length-drop zero xs = omega arith
  length-drop (suc n) [] = omega arith
  length-drop (suc n) (x ∷ xs) = length-drop n xs ∙ omega arith

  pub take-append_le : (n : ℕ) (xs ys : List A) → n ≤ length xs → take n (xs ++ ys) ≡ take n xs
  take-append_le zero xs ys h = refl
  take-append_le (suc n) [] ys h = absurd (omega arith)
  take-append_le (suc n) (x ∷ xs) ys h = ap (λ zs. x ∷ zs) (take-append_le n xs ys (omega arith))

  pub drop-append_le :
      (n : ℕ) (xs ys : List A) → n ≤ length xs → drop n (xs ++ ys) ≡ drop n xs ++ ys
  drop-append_le zero xs ys h = refl
  drop-append_le (suc n) [] ys h = absurd (omega arith)
  drop-append_le (suc n) (x ∷ xs) ys h = drop-append_le n xs ys (omega arith)

  -- a list cut where it was joined
  pub take-append_same : (n : ℕ) (xs ys : List A) → length xs ≡ n → take n (xs ++ ys) ≡ xs
  take-append_same n xs ys h = take-append_le n xs ys (omega arith) ∙ take-all n xs (omega arith)

  pub drop-append_same : (n : ℕ) (xs ys : List A) → length xs ≡ n → drop n (xs ++ ys) ≡ ys
  drop-append_same n xs ys h =
      drop-append_le n xs ys (omega arith) ∙ ap (λ zs. zs ++ ys) (drop-all n xs (omega arith))

  drop-nil : (n : ℕ) → drop {A = A} n [] ≡ []
  drop-nil zero = refl
  drop-nil (suc n) = refl

  pub drop-drop : (n m : ℕ) (xs : List A) → drop n (drop m xs) ≡ drop (m + n) xs
  drop-drop n zero xs = ap (λ k. drop k xs) (omega arith)
  drop-drop n (suc m) [] = drop-nil n ∙ sym (drop-nil (suc m + n))
  drop-drop n (suc m) (x ∷ xs) =
      let next : suc (m + n) ≡ suc m + n = omega arith in
      drop-drop n m xs ∙ ap (λ k. drop k (x ∷ xs)) next

  pub drop-take : (n m : ℕ) (xs : List A) → drop n (take (n + m) xs) ≡ take m (drop n xs)
  drop-take zero m xs = ap (λ k. take k xs) (omega arith)
  drop-take (suc n) zero [] =
      let next : suc n + 0 ≡ suc n = omega arith in ap (λ k. drop (suc n) (take k [])) next
  drop-take (suc n) (suc m) [] =
      let next : suc n + suc m ≡ suc (n + suc m) = omega arith in
      ap (λ k. drop (suc n) (take k [])) next
  drop-take (suc n) m (x ∷ xs) =
      let next : suc n + m ≡ suc (n + m) = omega arith in
      ap (λ k. drop (suc n) (take k (x ∷ xs))) next ∙ drop-take n m xs
