-- ===== src/Daemon/Queue/Links.antt =====
-- The neighbours in a list after an item is put in or taken out.
use rrdtool_1_x.Prelude.{
  ℕ, ◌≡◌, refl, sym, ap, ◌∙◌, inl, inr, true, false, none, some, List, [], ◌∷◌, ◌++◌, arith, ◌==◌,
  if◌then◌else◌, Bool-cases, if_false,
}
use rrdtool_1_x.Daemon.Queue.{is_at, is_null}
use rrdtool_1_x.Daemon.Queue.Order.{
  has, Distinct, first, last, next_of, prev_of, remove, remove-absent, next_of-absent,
  prev_of-absent, is_at-first,
}

is_at-last : (i : ℕ) (xs : List ℕ) → has i xs ≡ false → is_at (last xs) i ≡ false
is_at-last i [] h = refl
is_at-last i (x ∷ []) h = ground arith
is_at-last i (x ∷ (y ∷ ys)) h = is_at-last i (y ∷ ys) (ground arith)

is_at-next_of : (i j : ℕ) (xs : List ℕ) → has i xs ≡ false → is_at (next_of j xs) i ≡ false
is_at-next_of i j [] h = refl
is_at-next_of i j (x ∷ xs) h = ground (arith, is_at-next_of i j xs, is_at-first i xs)

is_at-prev_of : (i j : ℕ) (xs : List ℕ) → has i xs ≡ false → is_at (prev_of j xs) i ≡ false
is_at-prev_of i j [] h = refl
is_at-prev_of i j (x ∷ xs) h = ground (arith, is_at-prev_of i j xs)

pub next_of-snoc :
    (i j : ℕ) (xs : List ℕ)
    → Distinct xs
    → has i xs ≡ false
    → next_of j (xs ++ (i ∷ [])) ≡ (if is_at (last xs) j then some i else next_of j xs)
next_of-snoc i j [] d h = ground arith
next_of-snoc i j (x ∷ []) d h = ground arith
next_of-snoc i j (x ∷ (y ∷ ys)) d h =
    ground (arith, next_of-snoc i j (y ∷ ys), is_at-last x (y ∷ ys), d)

pub prev_of-snoc :
    (i j : ℕ) (xs : List ℕ)
    → has i xs ≡ false
    → prev_of j (xs ++ (i ∷ [])) ≡ (if i == j then last xs else prev_of j xs)
prev_of-snoc i j [] h = ground arith
prev_of-snoc i j (x ∷ []) h = ground arith
prev_of-snoc i j (x ∷ (y ∷ ys)) h = ground (arith, prev_of-snoc i j (y ∷ ys))

prev_of-first :
    (i : ℕ) (xs : List ℕ) → Distinct xs → is_at (first xs) i ≡ true → prev_of i xs ≡ none
prev_of-first i [] d h = cc
prev_of-first i (x ∷ xs) d h = ground (arith, d, prev_of-absent i xs, is_at-first i xs)

-- `j` is before `i` exactly if `i` is after `j`.
pub link : (i j : ℕ) (xs : List ℕ) → Distinct xs → is_at (prev_of i xs) j ≡ is_at (next_of j xs) i
link i j [] d = refl
link i j (x ∷ xs) d =
    ground (arith, link i j xs d.1, prev_of-first i xs d.1, is_at-prev_of x i xs d.0)

pub first-remove :
    (i : ℕ) (xs : List ℕ)
    → Distinct xs
    → first (remove i xs) ≡ (if is_at (first xs) i then next_of i xs else first xs)
first-remove i [] d = refl
first-remove i (x ∷ xs) d = ground (arith, remove-absent i xs, d)

pub next_of-remove :
    (i j : ℕ) (xs : List ℕ)
    → Distinct xs
    → next_of j (remove i xs)
      ≡ (if i == j then none else if is_at (next_of j xs) i then next_of i xs else next_of j xs)
next_of-remove i j [] d = ground arith
next_of-remove i j (x ∷ xs) d = elim (Bool-cases (x == i)) [
  | inl same ↦
      let gone : has i xs ≡ false = ground (arith, d, same) in
      rw (same, remove-absent i xs gone)
        (ground (arith, same, is_at-next_of i j xs gone, next_of-absent i xs gone))
  | inr differ ↦
      rw differ (ground (arith, differ, next_of-remove i j xs d.1, first-remove i xs d.1))
]

pub is_null-prev_of :
    (i : ℕ) (xs : List ℕ)
    → Distinct xs
    → has i xs ≡ true
    → is_null (prev_of i xs) ≡ is_at (first xs) i
is_null-prev_of i [] d h = cc
is_null-prev_of i (x ∷ xs) d h =
    ground (arith, d, prev_of-absent i xs, is_at-first i xs, is_null-prev_of i xs d.1)

pub is_null-next_of :
    (i : ℕ) (xs : List ℕ)
    → Distinct xs
    → has i xs ≡ true
    → is_null (next_of i xs) ≡ is_at (last xs) i
is_null-next_of i [] d h = cc
is_null-next_of i (x ∷ []) d h = ground arith
is_null-next_of i (x ∷ (y ∷ ys)) d h =
    ground (arith, d, is_at-last x (y ∷ ys), is_null-next_of i (y ∷ ys) d.1)

prev_of-remove_first :
    (i j : ℕ) (xs : List ℕ)
    → has i xs ≡ false
    → Distinct xs
    → prev_of j xs ≡ (
        if i == j
        then none
        else if is_at (prev_of j (i ∷ xs)) i
        then prev_of i (i ∷ xs)
        else prev_of j (i ∷ xs))
prev_of-remove_first i j xs h d =
    ground (
      arith,
      prev_of-absent i xs h,
      is_at-prev_of i j xs h,
      prev_of-first j xs d,
      is_at-first i xs h,
    )

pub prev_of-remove :
    (i j : ℕ) (xs : List ℕ)
    → Distinct xs
    → prev_of j (remove i xs)
      ≡ (if i == j then none else if is_at (prev_of j xs) i then prev_of i xs else prev_of j xs)
prev_of-remove i j [] d = ground arith
prev_of-remove i j (x ∷ xs) d = elim (Bool-cases (x == i)) [
  | inl same ↦
      let e : x ≡ i = ground (arith, same) in
      let gone : has i xs ≡ false = ground (arith, d, same) in
      rw (same, remove-absent i xs gone)
        (prev_of-remove_first i j xs gone d.1
          ∙ ap
              (λ k.
                if i == j
                then none
                else if is_at (prev_of j (k ∷ xs)) i
                then prev_of i (k ∷ xs)
                else prev_of j (k ∷ xs))
              (sym e))
  | inr differ ↦ rw differ (
      ground (
        arith,
        differ,
        prev_of-remove i j xs d.1,
        first-remove i xs d.1,
        link j i xs d.1,
        prev_of-first i xs d.1,
        prev_of-first j xs d.1,
      ))
]

last-some : (x : ℕ) (xs : List ℕ) → is_null (last (x ∷ xs)) ≡ false
last-some x [] = refl
last-some x (y ∷ ys) = last-some y ys

pub last-cons :
    (x : ℕ) (xs : List ℕ) → last (x ∷ xs) ≡ (if is_null (last xs) then some x else last xs)
last-cons x [] = refl
last-cons x (y ∷ ys) = sym (if_false (some x) (last (y ∷ ys)) (last-some y ys))

has-last : (i x : ℕ) (xs : List ℕ) → is_at (last (x ∷ xs)) i ≡ true → has i (x ∷ xs) ≡ true
has-last i x [] h = ground arith
has-last i x (y ∷ ys) h = ground (arith, has-last i y ys h)

pub last-remove :
    (i : ℕ) (xs : List ℕ)
    → Distinct xs
    → last (remove i xs) ≡ (if is_at (last xs) i then prev_of i xs else last xs)
last-remove i [] d = refl
last-remove i (x ∷ []) d = ground arith
last-remove i (x ∷ (y ∷ ys)) d = elim (Bool-cases (x == i)) [
  | inl same ↦
      let gone : has i (y ∷ ys) ≡ false = ground (arith, d, same) in
      rw (same, remove-absent i (y ∷ ys) gone) (ground (arith, is_at-last i (y ∷ ys) gone))
  | inr differ ↦
      let ih = last-remove i (y ∷ ys) d.1 in
      rw differ (
        last-cons x (remove i (y ∷ ys))
        ∙ ground (arith, ih, is_null-prev_of i (y ∷ ys) d.1, has-last i y ys, last-some y ys))
]

pub has-snoc :
    (i j : ℕ) (xs : List ℕ) → has j (xs ++ (i ∷ [])) ≡ (if i == j then true else has j xs)
has-snoc i j [] = ground arith
has-snoc i j (x ∷ xs) = ground (arith, has-snoc i j xs)

pub snoc-Distinct :
    (i : ℕ) (xs : List ℕ) → Distinct xs → has i xs ≡ false → Distinct (xs ++ (i ∷ []))
snoc-Distinct i [] d h = (refl, tt)
snoc-Distinct i (x ∷ xs) d h =
    (ground (arith, has-snoc i x xs, d, h), snoc-Distinct i xs d.1 (ground (arith, h)))

pub first-snoc :
    (i : ℕ) (xs : List ℕ)
    → first (xs ++ (i ∷ [])) ≡ (if is_null (last xs) then some i else first xs)
first-snoc i [] = refl
first-snoc i (x ∷ xs) = sym (if_false (some i) (some x) (last-some x xs))

pub last-snoc : (i : ℕ) (xs : List ℕ) → last (xs ++ (i ∷ [])) ≡ some i
last-snoc i [] = refl
last-snoc i (x ∷ []) = refl
last-snoc i (x ∷ (y ∷ ys)) = last-snoc i (y ∷ ys)
