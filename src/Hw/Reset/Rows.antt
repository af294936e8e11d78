-- ===== src/Hw/Reset/Rows.antt =====
-- What the reset of a seasonal archive leaves in the file.
use rrdtool_1_x.Prelude.{
  ℕ, zero, suc, ◌+◌, ◌*◌, ◌-◌, ◌<◌, ◌≡◌, refl, sym, ap, ◌∙◌, ◌≢◌, some, List, arith, length,
  get_elem?, set, length-set, get_elem?-set_self, get_elem?-set_ne, lt→ltb,
}
use rrdtool_1_x.Prelude.Double.{Double}
use rrdtool_1_x.Store.{File, rrd_seek, rrd_write}
use rrdtool_1_x.Hw.Reset.{reset_rows}

module _ {D : Type 0} ⦃d : Double D⦄ where
  -- The `n` values from `p` on at distances of `w` are NaN, and all else is as in `old`.
  pub record Forgotten (w n p : ℕ) (old new : List D) : Type 0 where
    pub same_length : length new ≡ length old
    pub unknown : (k : ℕ) → k < n → get_elem? new (p + k * w) ≡ some d.nan
    pub others : (i : ℕ) → ((k : ℕ) → k < n → i ≢ p + k * w) → get_elem? new i ≡ get_elem? old i

  Forgotten-suc :
      (w n p : ℕ) (old new : List D)
      → 0 < w
      → p < length old
      → Forgotten w n (p + 1 + (w - 1)) (set old p d.nan) new
      → Forgotten w (suc n) p old new
  Forgotten-suc w n p old new wide inside s = record {
    same_length = s.same_length ∙ length-set old p d.nan;
    unknown = unknown_suc;
    others = λ i o.
        s.others i (λ k l e. o (suc k) (omega (arith, l)) (e ∙ along k))
        ∙ get_elem?-set_ne old d.nan (λ e. o 0 (omega arith) (omega (arith, e)));
  }
    where
      along : (k : ℕ) → p + 1 + (w - 1) + k * w ≡ p + suc k * w
      along k = omega (arith, wide)

      before : (k : ℕ) → k < n → p ≢ p + 1 + (w - 1) + k * w
      before k l = omega arith

      unknown_suc : (k : ℕ) → k < suc n → get_elem? new (p + k * w) ≡ some d.nan
      unknown_suc zero l =
          ap (get_elem? new) (omega arith)
          ∙ s.others p before
          ∙ get_elem?-set_self old p d.nan inside
      unknown_suc (suc k) l = ap (get_elem? new) (sym (along k)) ∙ s.unknown k (omega (arith, l))

  -- Where the rows lie in the file, the reset of a data source in a seasonal archive succeeds: the
  -- values of the data source, one a row, are NaN, and all other values are as before.
  pub reset_rows-Forgotten :
      (ds_cnt n : ℕ) (f : File D)
      → 0 < ds_cnt
      → f.pos + n * ds_cnt < length f.cells + ds_cnt
      → (f' : File D) × (reset_rows ds_cnt n f ≡ some f')
        × Forgotten ds_cnt n f.pos f.cells f'.cells
  unfolding reset_rows rrd_write rrd_seek
  reset_rows-Forgotten ds_cnt zero f wide room =
      (f, refl, record { same_length = refl; unknown = λ k l. elim l [ ]; others = λ i o. refl })
  reset_rows-Forgotten ds_cnt (suc n) f wide room =
      let inside : f.pos < length f.cells = omega (arith, room) in
      let kept = length-set f.cells f.pos d.nan in
      let (f', ran, s) =
        reset_rows-Forgotten ds_cnt n
          (record { pos = f.pos + 1 + (ds_cnt - 1); cells = set f.cells f.pos d.nan }) wide
          (omega (arith, room, kept, wide)) in
      (
        f',
        rw (lt→ltb f.pos (length f.cells) inside) ran,
        Forgotten-suc ds_cnt n f.pos f.cells f'.cells wide inside s,
      )
