-- ===== src/Fetch/Rows.antt =====
-- The rows that `rrd_fetch_fn` reads, against the order of the ring.
use rrdtool_1_x.Prelude.{
  ℕ, zero, suc, ◌+◌, ◌-◌, ◌*◌, ◌%◌, ◌≤◌, ◌<◌, ◌≡◌, refl, sym, ap, ◌∙◌, ◌⊎◌, inl, inr, false, not,
  ◌||◌, some, List, [], ◌∷◌, ◌++◌, arith, leb, if◌then◌else◌, length, get_elem?, take, drop,
  Bool-cases,
}
use mathlib.Core.Path.{ap₂}
use native.Mathlib.Nat.{mod-eq_of_lt, mod_self, mod-add-mod, mul-le-mul_right}
use rrdtool_1_x.Prelude.Int.{pos, ◌+ℤ◌, ltb_ℤ}
use rrdtool_1_x.Prelude.Double.{Double}
use rrdtool_1_x.Store.{File, rrd_seek, rrd_read}
use rrdtool_1_x.Update.Prepare.{read_values}
use rrdtool_1_x.Fetch.{fetch_rows}

module _ {D : Type 0} where
  abbrev pub slice : List D → ℕ → ℕ → List D
  slice xs i n = take n (drop i xs)

  slice-suc :
      (xs : List D) (i n : ℕ)
      → i < length xs
      → (v : D) × (get_elem? xs i ≡ some v) × (slice xs i (suc n) ≡ v ∷ slice xs (suc i) n)
  slice-suc [] i n h = absurd (omega arith)
  slice-suc (x ∷ xs) zero n h = (x, refl, refl)
  slice-suc (x ∷ xs) (suc i) n h = slice-suc xs i n (omega arith)

  rrd_read-next :
      (f : File D) (v : D)
      → get_elem? f.cells f.pos ≡ some v
      → rrd_read f ≡ some (v, record { pos = suc f.pos; cells = f.cells })
  unfolding rrd_read
  rrd_read-next f v e = let next : f.pos + 1 ≡ suc f.pos = omega arith in rw (e, next) refl

  read_values_lem :
      (n : ℕ) (f : File D)
      → f.pos + n ≤ length f.cells
      → read_values n f ≡ some (slice f.cells f.pos n, record { pos = f.pos + n; cells = f.cells })
  unfolding read_values
  read_values_lem zero f h = let same : f.pos + 0 ≡ f.pos = omega arith in rw same refl
  read_values_lem (suc n) f h =
      let (v, at, part) = slice-suc f.cells f.pos n (omega arith) in
      let rest = read_values_lem n (record { pos = suc f.pos; cells = f.cells }) (omega arith) in
      let next : f.pos + suc n ≡ suc f.pos + n = omega arith in
      rw (rrd_read-next f v at, rest, part, next) refl

suc-mod : (n p q : ℕ) → p % n ≡ q % n → suc p % n ≡ suc q % n
suc-mod n p q h =
    ap (λ k. k % n) (omega arith)
    ∙ sym (mod-add-mod p n 1)
    ∙ ap (λ k. (k + 1) % n) h
    ∙ mod-add-mod q n 1
    ∙ ap (λ k. k % n) (omega arith)

module _ {D : Type 0} (cells : List D) (base ds_cnt row_cnt : ℕ) where
  -- `n` rows in the order of the ring, from row `p` on
  abbrev pub ring_from : ℕ → ℕ → List D
  ring_from zero p = []
  ring_from (suc n) p = slice cells (base + p % row_cnt * ds_cnt) ds_cnt ++ ring_from n (suc p)

  ring_from-mod : (n p q : ℕ) → p % row_cnt ≡ q % row_cnt → ring_from n p ≡ ring_from n q
  ring_from-mod zero p q h = refl
  ring_from-mod (suc n) p q h =
      ap₂ (λ k rest. slice cells (base + k * ds_cnt) ds_cnt ++ rest) h
        (ring_from-mod n (suc p) (suc q) (suc-mod row_cnt p q h))

last_in : (at ds row_cnt : ℕ) → at < row_cnt → at * ds + ds ≤ row_cnt * ds
last_in at ds row_cnt h = omega (arith, mul-le-mul_right ds h)

inside : (i n : ℕ) → i < n → (ltb_ℤ (pos i) (pos 0) || not (ltb_ℤ (pos i) (pos n))) ≡ false
inside i n h = ground arith

next_row_index : (i : ℕ) → pos i +ℤ pos 1 ≡ pos (suc i)
unfolding ◌+ℤ◌
next_row_index i = ground arith

module _ {D : Type 0} ⦃d : Double D⦄ (base ds_cnt row_cnt : ℕ) (rows : 0 < row_cnt) where
  -- one turn of the loop, for a row of the archive
  one_row :
      (n i p at : ℕ) (f sought next : File D) (row rest : List D)
      → i < row_cnt
      → (if leb row_cnt p then p - row_cnt else p) ≡ at
      → (if leb row_cnt p then rrd_seek f (base + at * ds_cnt) else f) ≡ sought
      → read_values ds_cnt sought ≡ some (row, next)
      → fetch_rows base ds_cnt row_cnt n (pos (suc i)) (suc at) next ≡ some rest
      → fetch_rows base ds_cnt row_cnt (suc n) (pos i) p f ≡ some (row ++ rest)
  unfolding fetch_rows
  one_row n i p at f sought next row rest h place seek read later =
      rw (inside i row_cnt h, next_row_index i, place, seek, read, later) refl

  -- Where the rows that are wanted are all in the archive and the file stands at the row pointer, or
  -- the row pointer is just past the last row, and the archive lies in the file, the loop succeeds
  -- and reads them in the order of the ring, wrapping from the last row to the first.
  pub fetch_rows_lem :
      (n i p : ℕ) (f : File D)
      → i + n ≤ row_cnt
      → p ≤ row_cnt
      → (row_cnt ≤ p) ⊎ (f.pos ≡ base + p * ds_cnt)
      → base + row_cnt * ds_cnt ≤ length f.cells
      → fetch_rows base ds_cnt row_cnt n (pos i) p f
        ≡ some (ring_from f.cells base ds_cnt row_cnt n p)
  unfolding fetch_rows rrd_seek
  fetch_rows_lem zero i p f h k s room = refl
  fetch_rows_lem (suc n) i p f h k s room = elim (Bool-cases (leb row_cnt p)) [
    | inl e ↦
        let first : p ≡ row_cnt = ground (arith, e) in
        let at : p - row_cnt ≡ 0 = omega arith in
        let sought : File D = rrd_seek f (base + 0 * ds_cnt) in
        let next : File D = record { pos = base + 0 * ds_cnt + ds_cnt; cells = f.cells } in
        let rest = fetch_rows_lem n (suc i) 1 next (omega arith) rows (inr (omega arith)) room in
        let read = read_values_lem ds_cnt sought (omega (arith, last_in 0 ds_cnt row_cnt rows)) in
        let zeroth : p % row_cnt ≡ 0 = ap (λ k. k % row_cnt) first ∙ mod_self row_cnt in
        let same : p % row_cnt ≡ 0 % row_cnt = zeroth ∙ sym (mod-eq_of_lt rows) in
        one_row n i p 0 f sought next _ _ (omega arith) (rw e at) (rw e refl) read rest
        ∙ ap some (
            ap₂ (λ k rest. slice f.cells (base + k * ds_cnt) ds_cnt ++ rest) (sym zeroth)
              (ring_from-mod f.cells base ds_cnt row_cnt n 1 (suc p)
                (suc-mod row_cnt 0 p (sym same))))
    | inr e ↦
        let small : p < row_cnt = ground (arith, e) in
        let here : f.pos ≡ base + p * ds_cnt = elim s [
          | inl big ↦ absurd (omega arith)
          | inr q ↦ q
        ] in
        let next : File D = record { pos = f.pos + ds_cnt; cells = f.cells } in
        let rest =
          fetch_rows_lem n (suc i) (suc p) next (omega arith) small (inr (omega arith)) room in
        let read = read_values_lem ds_cnt f (omega (arith, last_in p ds_cnt row_cnt small)) in
        one_row n i p p f f next _ _ (omega arith) (rw e refl) (rw e refl) read rest
        ∙ ap (λ k. some (slice f.cells k ds_cnt ++ ring_from f.cells base ds_cnt row_cnt n (suc p)))
            (here ∙ ap (λ k. base + k * ds_cnt) (sym (mod-eq_of_lt small)))
  ]
