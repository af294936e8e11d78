-- ===== src/Daemon/Queue/Order.antt =====
-- Lists of items, each at most once, and the items beside an item.
use rrdtool_1_x.Prelude.{
  ℕ, suc, ◌≡◌, refl, ap, inl, inr, Bool, true, false, ◌||◌, Option, none, some, List, [], ◌∷◌,
  arith, ◌==◌, if◌then◌else◌, length, Bool-cases,
}
use rrdtool_1_x.Daemon.Queue.{is_at}

abbrev pub has : ℕ → List ℕ → Bool
has i [] = false
has i (x ∷ xs) = (x == i) || has i xs

abbrev pub Distinct : List ℕ → Type 0
Distinct [] = Unit {0}
Distinct (x ∷ xs) = (has x xs ≡ false) × Distinct xs

abbrev pub first : List ℕ → Option ℕ
first [] = none
first (x ∷ xs) = some x

abbrev pub last : List ℕ → Option ℕ
last [] = none
last (x ∷ []) = some x
last (x ∷ (y ∷ ys)) = last (y ∷ ys)

-- the item after `i`, and the one before it
abbrev pub next_of : ℕ → List ℕ → Option ℕ
next_of i [] = none
next_of i (x ∷ xs) = if x == i then first xs else next_of i xs

abbrev pub prev_of : ℕ → List ℕ → Option ℕ
prev_of i [] = none
prev_of i (x ∷ xs) = if is_at (first xs) i then some x else prev_of i xs

abbrev pub remove : ℕ → List ℕ → List ℕ
remove i [] = []
remove i (x ∷ xs) = let rest = remove i xs in if x == i then rest else x ∷ rest

pub has-remove :
    (i j : ℕ) (xs : List ℕ) → has j (remove i xs) ≡ (if i == j then false else has j xs)
has-remove i j [] = ground arith
has-remove i j (x ∷ xs) = ground (arith, has-remove i j xs)

pub remove-absent : (i : ℕ) (xs : List ℕ) → has i xs ≡ false → remove i xs ≡ xs
remove-absent i [] h = refl
remove-absent i (x ∷ xs) h = ground (arith, remove-absent i xs)

pub remove-Distinct : (i : ℕ) (xs : List ℕ) → Distinct xs → Distinct (remove i xs)
remove-Distinct i [] h = tt
remove-Distinct i (x ∷ xs) h = elim (Bool-cases (x == i)) [
  | inl same ↦ rw same (remove-Distinct i xs h.1)
  | inr differ ↦ rw differ (ground (arith, has-remove i x xs, h), remove-Distinct i xs h.1)
]

pub length-remove :
    (i : ℕ) (xs : List ℕ) → Distinct xs → has i xs ≡ true → suc (length (remove i xs)) ≡ length xs
length-remove i [] d h = cc
length-remove i (x ∷ xs) d h = elim (Bool-cases (x == i)) [
  | inl same ↦ rw same (ap (λ ys. suc (length ys)) (remove-absent i xs (ground (arith, d, same))))
  | inr differ ↦ rw differ (ap suc (length-remove i xs d.1 (ground (arith, differ))))
]

-- An item that is not there has no neighbours.
pub next_of-absent : (i : ℕ) (xs : List ℕ) → has i xs ≡ false → next_of i xs ≡ none
next_of-absent i [] h = refl
next_of-absent i (x ∷ xs) h = ground (arith, next_of-absent i xs)

pub is_at-first : (i : ℕ) (xs : List ℕ) → has i xs ≡ false → is_at (first xs) i ≡ false
is_at-first i [] h = refl
is_at-first i (x ∷ xs) h = ground arith

pub prev_of-absent : (i : ℕ) (xs : List ℕ) → has i xs ≡ false → prev_of i xs ≡ none
prev_of-absent i [] h = refl
prev_of-absent i (x ∷ xs) h = ground (arith, prev_of-absent i xs, is_at-first i xs)
