-- ===== src/Hw/Smooth/Frame.antt =====
-- What the smoother may change of the file.
use rrdtool_1_x.Prelude.{
  ℕ, zero, suc, ◌+◌, ◌*◌, ◌%◌, ◌≤◌, ◌<◌, ◌≡◌, refl, sym, ap, ◌∙◌, ◌⊎◌, inl, inr, Option, none, some,
  List, [], ◌∷◌, arith, ltb, ◌==◌, length, length-set, replicate, get_elem?, set, Bool-cases,
  ltb→lt, >>=-elim, some_inj,
}
use mathlib.Core.Option
use mathlib.Core.Path.{subst}
use rrdtool_1_x.Prelude.Int.{sub_ℕ}
use rrdtool_1_x.Prelude.Double.{Double}
use rrdtool_1_x.Format.{Rra, rrd_cf_conv}
use rrdtool_1_x.Store.{File, rrd_seek, rrd_read, rrd_write}
use rrdtool_1_x.Update.Write.Rows.{Spliced, splice-cons}
use rrdtool_1_x.Hw.Queue.{my_mod, queue_push, queue_pop}
use rrdtool_1_x.Hw.Smooth.{
  Column, each_column, rra_at, write_values, with_value, smooth_offset, read_known, first_terms,
  move_window, move_windows, baselines, against_baseline, raise_intercepts, init_seasonality_of,
  smooth_seasonal, is_seasonal_cf, smooth_by_cf, fresh_column, smooth_values, smooth_if_known,
  apply_smoother,
}

module _ {D : Type 0} where
  -- No value is lost, and those before `start` and from `stop` on are as they were.
  pub record SameOutside (start stop : ℕ) (old new : List D) : Type 0 where
    pub same_length : length new ≡ length old
    pub outside : (i : ℕ) → (i < start) ⊎ (stop ≤ i) → get_elem? new i ≡ get_elem? old i

  unchanged : {start stop : ℕ} (old new : List D) → new ≡ old → SameOutside start stop old new
  unchanged old new e = record {
    same_length = ap length e;
    outside = λ i o. ap (λ cells. get_elem? cells i) e;
  }

  each_column-length :
      (step : ℕ → List D → Column D → Option (List D × Column D))
      → ((j : ℕ) (values : List D) (c : Column D) (r : List D × Column D)
          → step j values c ≡ some r
          → length r.0 ≡ length values)
      → (j : ℕ) (values : List D) (columns : List (Column D)) {r : List D × List (Column D)}
      → each_column step j values columns ≡ some r
      → length r.0 ≡ length values
  unfolding each_column
  each_column-length step keep j values [] e = ap (λ t. length t.0) (sym (some_inj e))
  each_column-length step keep j values (c ∷ columns) e = >>=-elim (step j values c) _ e λ r e1 e2.
      >>=-elim (each_column step (suc j) r.0 columns) _ e2 λ s e3 e4.
        ap (λ t. length t.0) (sym (some_inj e4))
        ∙ each_column-length step keep (suc j) r.0 columns e3
        ∙ keep j values c r e1

  abbrev length_or : ℕ → Option (List D) → ℕ
  length_or n none = n
  length_or n (some vs) = length vs

  length_or-with_value :
      (n : ℕ) (v : D) (o : Option (List D))
      → length_or n o ≡ n
      → length_or (suc n) (with_value v o) ≡ suc n
  length_or-with_value n v none e = refl
  length_or-with_value n v (some vs) e = ap suc e

  same_cells :
      (f : File D) (o : Option D) {r : D × File D}
      → Option.map (λ v. (v, record f { pos = f.pos + 1 })) o ≡ some r
      → r.1.cells ≡ f.cells
  same_cells f none e = cc
  same_cells f (some v) e = ap (λ t. t.1.cells) (sym (some_inj e))

  rrd_read-cells : (f : File D) {r : D × File D} → rrd_read f ≡ some r → r.1.cells ≡ f.cells
  unfolding rrd_read
  rrd_read-cells f e = same_cells f (get_elem? f.cells f.pos) e

  write_values-Spliced :
      (vs : List D) (f : File D) {f' : File D}
      → write_values vs f ≡ some f'
      → Spliced f.cells f'.cells f.pos vs
  unfolding write_values rrd_write
  write_values-Spliced [] f e = record {
    same_length = ap (λ g. length g.cells) (sym (some_inj e));
    inside = λ k l. elim l [ ];
    outside = λ i o. ap (λ g. get_elem? g.cells i) (sym (some_inj e));
  }
  write_values-Spliced (v ∷ vs) f {f'} e = elim (Bool-cases (ltb f.pos (length f.cells))) [
    | inl room ↦
        let e' = rw (write_values, rrd_write, room) at e in
        splice-cons f.cells f'.cells f.pos v vs (ltb→lt f.pos (length f.cells) room)
          (write_values-Spliced vs (record { pos = f.pos + 1; cells = set f.cells f.pos v }) e')
    | inr full ↦ let e' = rw (write_values, rrd_write, full) at e in cc
  ]

module _ {D : Type 0} ⦃d : Double D⦄ where
  open d use {of_nat, add, div, is_nan}

  move_window-length :
      (copy : List D) (row_length row_count offset i j : ℕ) (values : List D) (c : Column D)
      (r : List D × Column D)
      → move_window copy row_length row_count offset i j values c ≡ some r
      → length r.0 ≡ length values
  unfolding move_window
  move_window-length copy row_length row_count offset i j values c r e =
      >>=-elim (get_elem? copy (my_mod (sub_ℕ i 0) row_count * row_length + j)) _ e λ v e1 e2.
        >>=-elim (queue_push c.buffer v) _ e2 λ b e3 e4. >>=-elim (queue_pop b) _ e4 λ o e5 e6.
          ap (λ t. length t.0) (sym (some_inj e6))
          ∙ length-set values (my_mod (sub_ℕ i offset) row_count * row_length + j)
              (div (add c.working_average v) (of_nat (2 * offset + 1)))

  move_windows-length :
      (copy : List D) (row_length row_count offset n i : ℕ) (values : List D)
      (columns : List (Column D)) {r : List D × List (Column D)}
      → move_windows copy row_length row_count offset n i values columns ≡ some r
      → length r.0 ≡ length values
  unfolding move_windows
  move_windows-length copy row_length row_count offset zero i values columns e =
      ap (λ t. length t.0) (sym (some_inj e))
  move_windows-length copy row_length row_count offset (suc n) i values columns e =
      >>=-elim (each_column (move_window copy row_length row_count offset i) 0 values columns) _ e
        λ r e1 e2.
          move_windows-length copy row_length row_count offset n (suc i) r.0 r.1 e2
          ∙ each_column-length (move_window copy row_length row_count offset i)
              (move_window-length copy row_length row_count offset i) 0 values columns e1

  against_baseline-length :
      (g : D → D → D) (base : List D) (row_length p : ℕ) (values : List D) {out : List D}
      → against_baseline g base row_length p values ≡ some out
      → length out ≡ length values
  unfolding against_baseline
  against_baseline-length g base row_length p [] e = ap length (sym (some_inj e))
  against_baseline-length g base row_length p (v ∷ values) e =
      >>=-elim (get_elem? base (p % row_length)) _ e λ b e1 e2.
        >>=-elim (against_baseline g base row_length (suc p) values) _ e2 λ rest e3 e4.
          ap length (sym (some_inj e4))
          ∙ ap suc (against_baseline-length g base row_length (suc p) values e3)

  smooth_by_cf-length :
      (rras : List (Rra D)) (rra : Rra D) (row_length : ℕ) (base values : List D)
      {r : List (Rra D) × List D}
      → smooth_by_cf rras rra row_length base values ≡ some r
      → length r.1 ≡ length values
  unfolding smooth_by_cf smooth_seasonal
  smooth_by_cf-length rras rra row_length base values e =
      elim (Bool-cases (is_seasonal_cf (rrd_cf_conv rra.cf_nam))) [
        | inl yes_seasonal ↦
            let e' = rw (smooth_by_cf, yes_seasonal) at e in
            >>=-elim (rra_at rras rra.dependent_rra_idx) _ e' λ dep e1 e2.
              >>=-elim (init_seasonality_of (rrd_cf_conv dep.cf_nam)) _ e2 λ g e3 e4.
                >>=-elim (against_baseline g base row_length 0 values) _ e4 λ out e5 e6.
                  >>=-elim (raise_intercepts base dep.cdps) _ e6 λ cdps e7 e8.
                    ap (λ t. length t.1) (sym (some_inj e8))
                    ∙ against_baseline-length g base row_length 0 values e5
        | inr other ↦
            let e' = rw (smooth_by_cf, other) at e in ap (λ t. length t.1) (sym (some_inj e'))
      ]

  read_known-cells :
      (n : ℕ) (f : File D) {r : Option (List D) × File D}
      → read_known n f ≡ some r
      → r.1.cells ≡ f.cells
  unfolding read_known rrd_read
  read_known-cells zero f e = ap (λ t. t.1.cells) (sym (some_inj e))
  read_known-cells (suc n) f e = >>=-elim (rrd_read f) _ e λ r e1 e2.
      elim (Bool-cases (is_nan r.0)) [
        | inl unknown ↦
            let e' = rw unknown at e2 in
            ap (λ t. t.1.cells) (sym (some_inj e')) ∙ rrd_read-cells f e1
        | inr known ↦
            let e' = rw known at e2 in
            >>=-elim (read_known n r.1) _ e' λ s e3 e4.
              ap (λ t. t.1.cells) (sym (some_inj e4))
              ∙ read_known-cells n r.1 e3
              ∙ rrd_read-cells f e1
      ]

  read_known-length :
      (n : ℕ) (f : File D) {r : Option (List D) × File D}
      → read_known n f ≡ some r
      → length_or n r.0 ≡ n
  unfolding read_known
  read_known-length zero f e = ap (λ t. length_or 0 t.0) (sym (some_inj e))
  read_known-length (suc n) f e = >>=-elim (rrd_read f) _ e λ r e1 e2.
      elim (Bool-cases (is_nan r.0)) [
        | inl unknown ↦
            let e' = rw unknown at e2 in ap (λ t. length_or (suc n) t.0) (sym (some_inj e'))
        | inr known ↦
            let e' = rw known at e2 in
            >>=-elim (read_known n r.1) _ e' λ s e3 e4.
              ap (λ t. length_or (suc n) t.0) (sym (some_inj e4))
              ∙ length_or-with_value n r.0 s.0 (read_known-length n r.1 e3)
      ]

  module _ (malloc : ℕ → List D) where
    smooth_values-Spliced :
        (rras : List (Rra D)) (rra : Rra D) (row_length rra_start offset : ℕ) (values : List D)
        (f : File D) {r : List (Rra D) × File D}
        → smooth_values malloc rras rra row_length rra_start offset values f ≡ some r
        → (vs : List D) × (length vs ≡ length values) × Spliced f.cells r.1.cells rra_start vs
    unfolding smooth_values rrd_seek
    smooth_values-Spliced rras rra row_length rra_start offset values f e =
        >>=-elim
          (first_terms row_length rra.row_cnt offset (2 * offset) 0 values
            (replicate row_length (fresh_column malloc (2 * offset + 1))))
          _ e
          λ columns e1 e2.
            >>=-elim
              (move_windows values row_length rra.row_cnt offset rra.row_cnt offset values columns)
              _ e2
              λ m e3 e4.
                >>=-elim (smooth_by_cf rras rra row_length (baselines rra.row_cnt m.1) m.0) _ e4
                  λ b e5 e6. >>=-elim (write_values b.1 (rrd_seek f rra_start)) _ e6 λ f' e7 e8. (
                    b.1,
                    smooth_by_cf-length rras rra row_length (baselines rra.row_cnt m.1) m.0 e5
                        ∙ move_windows-length values row_length rra.row_cnt offset rra.row_cnt
                            offset values columns e3,
                    subst (λ t. Spliced f.cells t.1.cells rra_start b.1) (some_inj e8)
                        (write_values-Spliced b.1 (rrd_seek f rra_start) e7),
                  )

    smooth_if_known-SameOutside :
        (rras : List (Rra D)) (rra : Rra D) (row_length rra_start offset : ℕ)
        (s : Option (List D) × File D) (f : File D) {r : List (Rra D) × File D}
        → s.1.cells ≡ f.cells
        → length_or (rra.row_cnt * row_length) s.0 ≡ rra.row_cnt * row_length
        → smooth_if_known malloc rras rra row_length rra_start offset s ≡ some r
        → SameOutside rra_start (rra_start + rra.row_cnt * row_length) f.cells r.1.cells
    smooth_if_known-SameOutside rras rra row_length rra_start offset (none, f1) f {r} same size e =
        rw (sym same) (unchanged f1.cells r.1.cells (ap (λ t. t.1.cells) (sym (some_inj e))))
    smooth_if_known-SameOutside rras rra row_length rra_start offset (some values, f1) f same size
          e =
        let (vs, long, s) =
          smooth_values-Spliced rras rra row_length rra_start offset values f1 e in
        rw (sym same) (record {
          same_length = s.same_length;
          outside = λ i o. s.outside i (omega (arith, o, long, size));
        })

    -- The smoother changes nothing of the file outside the archive it smooths: the file keeps its
    -- length, and each value before the archive's first row or after its last is as it was, whatever
    -- is found in the archive and whatever `malloc` returns.
    pub apply_smoother-SameOutside :
        (version : ℕ) (rras : List (Rra D)) (rra_idx row_length rra_start : ℕ) (f : File D)
        (rra : Rra D) {r : List (Rra D) × File D}
        → rra_at rras rra_idx ≡ some rra
        → apply_smoother malloc version rras rra_idx row_length rra_start f ≡ some r
        → SameOutside rra_start (rra_start + rra.row_cnt * row_length) f.cells r.1.cells
    unfolding apply_smoother rrd_seek
    apply_smoother-SameOutside version rras rra_idx row_length rra_start f rra {r} found e =
        let e' = rw found at e in
        elim (Bool-cases (smooth_offset version rra == 0)) [
          | inl narrow ↦
              let e'' = rw narrow at e' in
              unchanged f.cells r.1.cells (ap (λ t. t.1.cells) (sym (some_inj e'')))
          | inr wide ↦
              let e'' = rw wide at e' in
              >>=-elim (read_known (rra.row_cnt * row_length) (rrd_seek f rra_start)) _ e''
                λ s e1 e2.
                  smooth_if_known-SameOutside rras rra row_length rra_start
                    (smooth_offset version rra) s f (read_known-cells _ (rrd_seek f rra_start) e1)
                    (read_known-length _ (rrd_seek f rra_start) e1) e2
        ]
