-- ===== src/Hw/Reset/Sources.antt =====
-- What the reset leaves alone: the values of the other data sources.
use rrdtool_1_x.Prelude.{
  ℕ, ◌+◌, ◌*◌, ◌%◌, ◌≤◌, ◌<◌, ◌≡◌, refl, sym, ap, ◌∙◌, ◌≢◌, Option, some, List, [], ◌∷◌, arith,
  length, get_elem?, set, get_elem?-eq_some, All,
}
use rrdtool_1_x.Prelude.Double.{Double}
use native.Mathlib.Nat.{add-mul, zero-mul, add_assoc, mul-add-mod_self_right, mod-eq_of_lt}
use rrdtool_1_x.Format.{
  Cf, hwpredict, mhwpredict, seasonal, devseasonal, failures, rrd_cf_conv, Cdp, Rra,
}
use rrdtool_1_x.Store.{File, rrd_seek}
use rrdtool_1_x.Hw.Reset.{reset_rows, reset_rra, reset_rras, reset_aberrant_coefficients}
use rrdtool_1_x.Hw.Reset.Rows.{reset_rows-Forgotten}

own_place : (w ds_idx s k : ℕ) → ds_idx < w → (s * w + ds_idx + k * w) % w ≡ ds_idx
own_place w ds_idx s k present =
    ap (λ i. i % w) (omega (arith, add-mul s k w))
    ∙ mul-add-mod_self_right (s + k) w ds_idx
    ∙ mod-eq_of_lt {n = ds_idx} {m = w} present

module _ {D : Type 0} where
  abbrev pub total_rows : List (Rra D) → ℕ
  total_rows [] = 0
  total_rows (rra ∷ rras) = rra.row_cnt + total_rows rras

  -- The file keeps its length, and the values of all data sources but `ds_idx`.
  pub record Spares (w ds_idx : ℕ) (old new : List D) : Type 0 where
    pub same_length : length new ≡ length old
    pub others : (i : ℕ) → i % w ≢ ds_idx → get_elem? new i ≡ get_elem? old i

module _ {D : Type 0} ⦃d : Double D⦄ (w ds_idx : ℕ) (present : ds_idx < w) where
  Spares-refl : (cells : List D) → Spares w ds_idx cells cells
  Spares-refl cells = record { same_length = refl; others = λ i o. refl }

  reset_rows-Spares :
      (n s : ℕ) (f : File D)
      → (s + n) * w ≤ length f.cells
      → (f' : File D) × (reset_rows w n (rrd_seek f (s * w + ds_idx)) ≡ some f')
        × Spares w ds_idx f.cells f'.cells
  unfolding rrd_seek
  reset_rows-Spares n s f room =
      let (f', ran, forgotten) =
        reset_rows-Forgotten w n (rrd_seek f (s * w + ds_idx)) (omega (arith, present))
          (omega (arith, room, present, add-mul s n w)) in
      (
        f',
        ran,
        record {
          same_length = forgotten.same_length;
          others = λ i o.
              forgotten.others i (λ k l e. o (ap (λ t. t % w) e ∙ own_place w ds_idx s k present));
        },
      )

  reset_rra-Spares :
      (cf : Option Cf) (s : ℕ) (rra : Rra D) (cdp : Cdp D) (f : File D)
      → (s + rra.row_cnt) * w ≤ length f.cells
      → (cdp' : Cdp D) × (f' : File D) × (reset_rra cf w ds_idx (s * w) rra cdp f ≡ some (cdp', f'))
        × Spares w ds_idx f.cells f'.cells
  unfolding reset_rra
  reset_rra-Spares (some seasonal) s rra cdp f room =
      let (f', ran, spared) = reset_rows-Spares rra.row_cnt s f room in
      (record cdp { hw_intercept = d.nan; hw_last_intercept = d.nan }, f', rw ran refl, spared)
  reset_rra-Spares (some devseasonal) s rra cdp f room =
      let (f', ran, spared) = reset_rows-Spares rra.row_cnt s f room in
      (record cdp { hw_intercept = d.nan; hw_last_intercept = d.nan }, f', rw ran refl, spared)
  reset_rra-Spares (some hwpredict) s rra cdp f room = (_, f, refl, Spares-refl f.cells)
  reset_rra-Spares (some mhwpredict) s rra cdp f room = (_, f, refl, Spares-refl f.cells)
  reset_rra-Spares (some failures) s rra cdp f room = (_, f, refl, Spares-refl f.cells)
  reset_rra-Spares _ s rra cdp f room = (cdp, f, refl, Spares-refl f.cells)

  reset_rras-Spares :
      (s : ℕ) (rras : List (Rra D)) (f : File D)
      → All (λ rra. length rra.cdps ≡ w) rras
      → (s + total_rows rras) * w ≤ length f.cells
      → (rras' : List (Rra D)) × (f' : File D) × (reset_rras w ds_idx (s * w) rras f
          ≡ some (rras', f'))
        × Spares w ds_idx f.cells f'.cells
  unfolding reset_rras
  reset_rras-Spares s [] f entries room = ([], f, refl, Spares-refl f.cells)
  reset_rras-Spares s (rra ∷ rras) f entries room =
      let parts = add-mul (s + rra.row_cnt) (total_rows rras) w in
      let split = add-mul s rra.row_cnt w in
      let all : (s + rra.row_cnt + total_rows rras) * w ≤ length f.cells =
        rw (add_assoc s rra.row_cnt (total_rows rras)) room in
      let (cdp, found) = get_elem?-eq_some rra.cdps ds_idx (omega (arith, entries.0, present)) in
      let (cdp', f1, ran, spared) =
        reset_rra-Spares (rrd_cf_conv rra.cf_nam) s rra cdp f (omega (arith, all, parts)) in
      let (rras', f2, rest, spared') =
        reset_rras-Spares (s + rra.row_cnt) rras f1 entries.1
          (omega (arith, all, spared.same_length)) in
      (
        record rra { cdps = set rra.cdps ds_idx cdp' } ∷ rras',
        f2,
        rw (found, ran, sym split, rest) refl,
        record {
          same_length = spared'.same_length ∙ spared.same_length;
          others = λ i o. spared'.others i o ∙ spared.others i o;
        },
      )

  -- Where every archive has an entry for each data source and the archives lie in the file,
  -- `reset_aberrant_coefficients` of a data source that is there succeeds; the file keeps its length,
  -- and the values of all other data sources, in all rows, are as before.
  pub reset_aberrant_coefficients-Spares :
      (rras : List (Rra D)) (f : File D)
      → All (λ rra. length rra.cdps ≡ w) rras
      → total_rows rras * w ≤ length f.cells
      → (rras' : List (Rra D)) × (f' : File D) × (reset_aberrant_coefficients w rras ds_idx f
          ≡ some (rras', f'))
        × Spares w ds_idx f.cells f'.cells
  unfolding reset_aberrant_coefficients
  reset_aberrant_coefficients-Spares rras f entries room =
      rw (zero-mul w) at (reset_rras-Spares 0 rras f entries (omega (arith, room)))
