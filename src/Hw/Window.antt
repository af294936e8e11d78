-- ===== src/Hw/Window.antt =====
-- The array of violations of `update_failures` as the window of a history: its first `window_len`
-- places are the newest violations.
use rrdtool_1_x.Prelude.{
  ℕ, zero, suc, ◌+◌, ◌^◌, ◌≤◌, ◌<◌, ◌≡◌, refl, ap, ◌∙◌, some, List, [], ◌∷◌, sym, some_inj, lt→ltb,
  arith, length, length-set, get_elem?, get_elem?-eq_some, set, take, drop, get_or, All,
}
use mathlib.Core.Path.{ap₂}
use native.Mathlib.Nat.{mod-eq_of_lt}
use rrdtool_1_x.Hw.Deviation.{count_violation, shift_violations, record_violation}

abbrev pub total : List ℕ → ℕ
total [] = 0
total (b ∷ bs) = b + total bs

abbrev pub IsBit : ℕ → Type 0
IsBit b = b ≤ 1

-- the array from its second place on, after a shift of `n` places, `x` being the first
abbrev shift_in : ℕ → ℕ → List ℕ → List ℕ
shift_in x zero vs = vs
shift_in x (suc n) [] = []
shift_in x (suc n) (v ∷ vs) = x ∷ shift_in v n vs

IsBit-get_elem? : (xs : List ℕ) (n : ℕ) {b : ℕ} → All IsBit xs → get_elem? xs n ≡ some b → IsBit b
IsBit-get_elem? [] n bits e = cc
IsBit-get_elem? (x ∷ xs) zero bits e = omega (arith, bits.0, some_inj e)
IsBit-get_elem? (x ∷ xs) (suc n) bits e = IsBit-get_elem? xs n bits.1 e

All-IsBit-set : (xs : List ℕ) (n b : ℕ) → All IsBit xs → IsBit b → All IsBit (set xs n b)
All-IsBit-set [] n b bits bit = tt
All-IsBit-set (x ∷ xs) zero b bits bit = (bit, bits.1)
All-IsBit-set (x ∷ xs) (suc n) b bits bit = (bits.0, All-IsBit-set xs n b bits.1 bit)

total-take :
    (xs : List ℕ) (n : ℕ) {b : ℕ}
    → get_elem? xs n ≡ some b
    → total (take (suc n) xs) ≡ total (take n xs) + b
total-take [] n e = cc
total-take (x ∷ xs) zero e = omega (arith, some_inj e)
total-take (x ∷ xs) (suc n) e = omega (arith, total-take xs n e)

take_le-set : (xs : List ℕ) (n m b : ℕ) → n ≤ m → take n (set xs m b) ≡ take n xs
take_le-set [] n m b h = refl
take_le-set (x ∷ xs) zero m b h = refl
take_le-set (x ∷ xs) (suc n) zero b h = elim h [ ]
take_le-set (x ∷ xs) (suc n) (suc m) b h = ap (λ l. x ∷ l) (take_le-set xs n m b (omega arith))

take_cons-set : (x : ℕ) (vs : List ℕ) (n b : ℕ) → take n (x ∷ set vs n b) ≡ take n (x ∷ vs)
take_cons-set x vs zero b = refl
take_cons-set x vs (suc n) b = ap (λ l. x ∷ l) (take_le-set vs n (suc n) b (omega arith))

shift_in-set :
    (x : ℕ) (vs : List ℕ) (n : ℕ) {b : ℕ}
    → get_elem? (x ∷ vs) n ≡ some b
    → n < length vs
    → shift_in x n (set vs n b) ≡ shift_in x (suc n) vs
shift_in-set x [] n e h = elim h [ ]
shift_in-set x (v ∷ vs) zero {b} e h = ap (λ y. y ∷ vs) (sym (some_inj e))
shift_in-set x (v ∷ vs) (suc n) e h = ap (λ l. x ∷ l) (shift_in-set v vs n e (omega arith))

count_violation-bit : (cnt b : ℕ) → IsBit b → cnt + b < 2 ^ 16 → count_violation cnt b ≡ cnt + b
unfolding count_violation
count_violation-bit cnt b bit h =
    rw (lt→ltb b 128 (omega (arith, bit))) (mod-eq_of_lt {n = cnt + b} {m = 2 ^ 16} h)

shift_violations-step :
    (x : ℕ) (vs : List ℕ) (n cnt b : ℕ)
    → n < length vs
    → get_elem? (x ∷ vs) n ≡ some b
    → shift_violations (suc (suc n)) (x ∷ vs) cnt
      ≡ shift_violations (suc n) (x ∷ set vs n b) (count_violation cnt b)
unfolding shift_violations
shift_violations-step x vs n cnt b h e =
    rw (lt→ltb (suc n) (suc (length vs)) (omega (arith, h))) (rw e refl)

-- The loop moves the newest `n + 1` violations up by one place, and adds the newest `n` to the count.
shift_violations_lem :
    (n x : ℕ) (vs : List ℕ) (cnt : ℕ)
    → n ≤ length vs
    → All IsBit (x ∷ vs)
    → cnt + n < 2 ^ 16
    → shift_violations (suc n) (x ∷ vs) cnt
      ≡ some (x ∷ shift_in x n vs, cnt + total (take n (x ∷ vs)))
unfolding shift_violations
shift_violations_lem zero x vs cnt h bits small = ap (λ c. some (x ∷ vs, c)) (omega arith)
shift_violations_lem (suc n) x vs cnt h bits small =
    let (b, e) = get_elem?-eq_some (x ∷ vs) n (omega arith) in
    let bit = IsBit-get_elem? (x ∷ vs) n bits e in
    let counted = count_violation-bit cnt b bit (omega (arith, bit)) in
    let bits' = All-IsBit-set vs n b bits.1 bit in
    let rest : shift_violations (suc n) (x ∷ set vs n b) (count_violation cnt b)
        ≡ some (x ∷ shift_in x n (set vs n b), cnt + b + total (take n (x ∷ set vs n b))) =
      rw counted (
        shift_violations_lem n x (set vs n b) (cnt + b) (omega (arith, h, length-set vs n b))
          (bits.0, bits') (omega (arith, bit))) in
    shift_violations-step x vs n cnt b (omega (arith, h)) e
    ∙ rest
    ∙ ap₂ (λ l c. some (x ∷ l, c)) (shift_in-set x vs n e (omega (arith, h)))
        (omega (arith, total-take (x ∷ vs) n e, ap total (take_cons-set x vs n b)))

take-shift_in : (n x : ℕ) (vs : List ℕ) → n ≤ length vs → take n (shift_in x n vs) ≡ take n (x ∷ vs)
take-shift_in zero x vs h = refl
take-shift_in (suc n) x [] h = elim h [ ]
take-shift_in (suc n) x (v ∷ vs) h = ap (λ l. x ∷ l) (take-shift_in n v vs (omega arith))

length-shift_in : (n x : ℕ) (vs : List ℕ) → length (shift_in x n vs) ≡ length vs
length-shift_in zero x vs = refl
length-shift_in (suc n) x [] = refl
length-shift_in (suc n) x (v ∷ vs) = ap suc (length-shift_in n v vs)

All-IsBit-shift_in : (n x : ℕ) (vs : List ℕ) → All IsBit (x ∷ vs) → All IsBit (shift_in x n vs)
All-IsBit-shift_in zero x vs bits = bits.1
All-IsBit-shift_in (suc n) x [] bits = tt
All-IsBit-shift_in (suc n) x (v ∷ vs) bits = (bits.0, All-IsBit-shift_in n v vs bits.1)

-- equal windows have equal shorter windows
take-shorter : (n : ℕ) (xs ys : List ℕ) → take (suc n) xs ≡ take (suc n) ys → take n xs ≡ take n ys
take-shorter zero xs ys e = refl
take-shorter (suc n) [] [] e = refl
take-shorter (suc n) [] (y ∷ ys) e = cc
take-shorter (suc n) (x ∷ xs) [] e = cc
take-shorter (suc n) (x ∷ xs) (y ∷ ys) e =
    ap₂ (λ a l. a ∷ l) (ap (λ l. get_or l 0 0) e) (take-shorter n xs ys (ap (drop 1) e))

-- The array of violations shows the newest `window_len` of a history of bits, newest first.
pub record Shows (window_len : ℕ) (vs history : List ℕ) : Type 0 where
  pub newest : take window_len vs ≡ take window_len history
  pub room : window_len ≤ length vs
  pub bits : All IsBit vs

-- If the array shows the newest `window_len` violations of a history, for a window of 1 to 2 ^ 16 - 1
-- places, recording one more succeeds, the array then shows those of the longer history, and the
-- count is that of the violations among them.
pub record_violation-Shows :
    (window_len : ℕ) (vs history : List ℕ) (violation : ℕ)
    → 0 < window_len
    → window_len < 2 ^ 16
    → IsBit violation
    → Shows window_len vs history
    → (vs' : List ℕ) × (record_violation window_len vs violation
        ≡ some (vs', total (take window_len (violation ∷ history))))
      × Shows window_len vs' (violation ∷ history)
unfolding record_violation
record_violation-Shows zero vs history violation pos small bit shows = elim pos [ ]
record_violation-Shows (suc n) [] history violation pos small bit shows = elim (shows.room) [ ]
record_violation-Shows (suc n) (x ∷ vs) history violation pos small bit shows =
    let room : n ≤ length vs = omega (arith, shows.room) in
    let same = take-shorter n (x ∷ vs) history shows.newest in
    let whole = mod-eq_of_lt {n = suc n} {m = 2 ^ 16} small in
    let ran = shift_violations_lem n x vs violation room shows.bits (omega (arith, bit)) in
    (
      violation ∷ shift_in x n vs,
      rw (record_violation, whole, ran)
          (ap (λ l. some (violation ∷ shift_in x n vs, violation + total l)) same),
      record {
        newest = ap (λ l. violation ∷ l) (take-shift_in n x vs room ∙ same);
        room = omega (arith, room, length-shift_in n x vs);
        bits = (bit, All-IsBit-shift_in n x vs shows.bits);
      },
    )
