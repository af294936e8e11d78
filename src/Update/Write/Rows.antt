-- ===== src/Update/Write/Rows.antt =====
-- What `write_RRA_row` leaves in the file: the row's values, one after the other.
use rrdtool_1_x.Prelude.{
  ℕ, zero, suc, ◌+◌, ◌≤◌, ◌<◌, ◌≡◌, refl, ap, ◌∙◌, ◌≢◌, ◌⊎◌, inl, some, List, [], ◌∷◌, map, arith,
  length, get_elem?, set, length-set, get_elem?-set_self, get_elem?-set_ne, lt→ltb,
}
use rrdtool_1_x.Format.{Cdp, Rra, DataSource}
use rrdtool_1_x.Store.{File, rrd_write}
use rrdtool_1_x.Update.Write.{Summary, ScratchIdx, scratch_val, push_info, info, write_rra_row}

module _ {D : Type 0} where
  -- `vs` lies at position `p` of the file, and all else is as in `old`.
  pub record Spliced (old new : List D) (p : ℕ) (vs : List D) : Type 0 where
    pub same_length : length new ≡ length old
    pub inside : (k : ℕ) → k < length vs → get_elem? new (p + k) ≡ get_elem? vs k
    pub outside : (i : ℕ) → (i < p) ⊎ (p + length vs ≤ i) → get_elem? new i ≡ get_elem? old i

  pub splice-cons :
      (old new : List D) (p : ℕ) (v : D) (vs : List D)
      → p < length old
      → Spliced (set old p v) new (p + 1) vs
      → Spliced old new p (v ∷ vs)
  splice-cons old new p v vs h s = record {
    same_length = omega (arith, s.same_length, length-set old p v);
    inside = inside_cons;
    outside = λ i o. s.outside i (apart i o) ∙ get_elem?-set_ne old v (differ i o);
  }
    where
      inside_cons : (k : ℕ) → k < suc (length vs) → get_elem? new (p + k) ≡ get_elem? (v ∷ vs) k
      inside_cons zero l =
          ap (get_elem? new) (omega arith)
          ∙ s.outside p (inl (omega arith))
          ∙ get_elem?-set_self old p v h
      inside_cons (suc k) l = ap (get_elem? new) (omega arith) ∙ s.inside k (omega arith)

      apart : (i : ℕ) → (i < p) ⊎ (p + suc (length vs) ≤ i) → (i < p + 1) ⊎ (p + 1 + length vs ≤ i)
      apart i o = omega arith

      differ : (i : ℕ) → (i < p) ⊎ (p + suc (length vs) ≤ i) → p ≢ i
      differ i o = omega arith

  write_rra_row-cons :
      (rra : Rra D) (s : DataSource D) (sources : List (DataSource D)) (c : Cdp D)
      (cdps : List (Cdp D)) (idx : ScratchIdx) (t : ℕ) (f : File D) (summary : Summary D)
      → f.pos < length f.cells
      → write_rra_row rra (s ∷ sources) (c ∷ cdps) idx t f summary
        ≡ write_rra_row rra sources cdps idx t
            (record { pos = f.pos + 1; cells = set f.cells f.pos (scratch_val idx c) })
            (push_info summary (info rra s t (scratch_val idx c)))
  unfolding write_rra_row rrd_write
  write_rra_row-cons rra s sources c cdps idx t f summary h =
      rw (write_rra_row, rrd_write, lt→ltb f.pos (length f.cells) h) refl

  -- Where the row fits the file and has a value for each data source, `write_RRA_row` succeeds and
  -- puts the row's values, in order, at the position of the file, and changes nothing else of it.
  pub write_rra_row_lem :
      (rra : Rra D) (sources : List (DataSource D)) (cdps : List (Cdp D)) (idx : ScratchIdx) (t : ℕ)
      (f : File D) (summary : Summary D)
      → length sources ≡ length cdps
      → f.pos + length cdps ≤ length f.cells
      → (f' : File D) × (summary' : Summary D) × (write_rra_row rra sources cdps idx t f summary
          ≡ some (f', summary'))
        × (f'.pos ≡ f.pos + length cdps)
        × Spliced f.cells f'.cells f.pos (map (scratch_val idx) cdps)
  unfolding write_rra_row rrd_write
  write_rra_row_lem rra [] [] idx t f summary e h = (
    f,
    summary,
    refl,
    omega arith,
    record { same_length = refl; inside = λ k l. elim l [ ]; outside = λ i o. refl },
  )
  write_rra_row_lem rra [] (c ∷ cdps) idx t f summary e h = absurd (omega arith)
  write_rra_row_lem rra (s ∷ sources) [] idx t f summary e h = absurd (omega arith)
  write_rra_row_lem rra (s ∷ sources) (c ∷ cdps) idx t f summary e h =
      let v = scratch_val idx c in
      let f1 : File D = record { pos = f.pos + 1; cells = set f.cells f.pos v } in
      let (f', summary', ran, moved, spliced) =
        write_rra_row_lem rra sources cdps idx t f1 (push_info summary (info rra s t v))
          (omega arith) (omega (arith, length-set f.cells f.pos v)) in
      (
        f',
        summary',
        write_rra_row-cons rra s sources c cdps idx t f summary (omega arith) ∙ ran,
        omega (arith, moved),
        splice-cons f.cells f'.cells f.pos v (map (scratch_val idx) cdps) (omega arith) spliced,
      )
