-- ===== src/Update/Prepare/Reads.antt =====
-- The lookups of seasonal coefficients only read: they leave the values of the file alone.
use rrdtool_1_x.Prelude.{
  ℕ, zero, suc, ◌+◌, ◌*◌, ◌≡◌, Bool, true, false, ◌&&◌, some, List, [], ◌∷◌, arith, ltb, get_elem?,
  >>=-elim, if◌then◌else◌, Option-cases, inl, inr,
}
use rrdtool_1_x.Prelude.Double.{Double}
use rrdtool_1_x.Format.{rrd_cf_conv, Rra}
use rrdtool_1_x.Store.{File, rrd_seek, rrd_read}
use rrdtool_1_x.Update.Steps.{start_pdp_offset, rra_step_cnt}
use rrdtool_1_x.Update.Write.{Pending}
use rrdtool_1_x.Update.Prepare.{
  read_values, lookup_seasonal, Progress, is_seasonal, smooth_step, update_cdp_prep, skip_ahead,
  prepare_rra, update_all_cdp_prep,
}

module _ {D : Type 0} where
  rrd_read-cells :
      (f : File D) {v : D} {f' : File D} → rrd_read f ≡ some (v, f') → f'.cells ≡ f.cells
  unfolding rrd_read
  rrd_read-cells f h = elim (Option-cases (get_elem? f.cells f.pos)) [
    | inl e ↦ ground (arith, e)
    | inr (v, e) ↦ ground (arith, e)
  ]

  read_values-cells :
      (n : ℕ) (f : File D) {vs : List D} {f' : File D}
      → read_values n f ≡ some (vs, f')
      → f'.cells ≡ f.cells
  unfolding read_values
  read_values-cells zero f h = cc
  read_values-cells (suc n) f {vs} {f'} h = >>=-elim (rrd_read f) _ h λ first e h1.
      >>=-elim (read_values n first.1) _ h1 λ rest e' h2.
        let here : first.1.cells ≡ f.cells = rrd_read-cells f e in
        let there : rest.1.cells ≡ first.1.cells = read_values-cells n first.1 e' in cc

  pub lookup_seasonal-cells :
      (rra : Rra D) (ds_cnt start : ℕ) (f : File D) (offset : ℕ) {vs : List D} {f' : File D}
      → lookup_seasonal rra ds_cnt start f offset ≡ some (vs, f')
      → f'.cells ≡ f.cells
  unfolding lookup_seasonal rrd_seek
  lookup_seasonal-cells rra ds_cnt start f offset h = read_values-cells ds_cnt _ h

module _ {D : Type 0} ⦃d : Double D⦄ where
  skip_ahead-cells :
      (rra : Rra D) (ds_cnt start elapsed : ℕ) (p : Progress D) {p' : Progress D}
      → skip_ahead rra ds_cnt start elapsed p ≡ some p'
      → p'.file.cells ≡ p.file.cells
  unfolding skip_ahead
  skip_ahead-cells rra ds_cnt start elapsed p h =
      >>=-elim (lookup_seasonal rra ds_cnt start p.file elapsed) _ h λ before e h1.
        >>=-elim (lookup_seasonal rra ds_cnt start before.1 _) _ h1 λ now e' h2.
          let here : before.1.cells ≡ p.file.cells =
            lookup_seasonal-cells rra ds_cnt start p.file elapsed e in
          let there : now.1.cells ≡ before.1.cells =
            lookup_seasonal-cells rra ds_cnt start before.1 _ e' in
          cc

  skipping-cells :
      (skip : Bool) (rra : Rra D) (ds_cnt start elapsed : ℕ) (p : Progress D) {p' : Progress D}
      → (if skip then skip_ahead rra ds_cnt start elapsed p else some p) ≡ some p'
      → p'.file.cells ≡ p.file.cells
  skipping-cells true rra ds_cnt start elapsed p h = skip_ahead-cells rra ds_cnt start elapsed p h
  skipping-cells false rra ds_cnt start elapsed p h = cc

  prepare_rra-cells :
      (rra : Rra D) (ds_cnt start elapsed proc : ℕ) (temp : List D) (p : Progress D)
      {out : Pending D} {p' : Progress D}
      → prepare_rra rra ds_cnt start elapsed proc temp p ≡ some (out, p')
      → p'.file.cells ≡ p.file.cells
  unfolding prepare_rra
  prepare_rra-cells rra ds_cnt start elapsed proc temp p h =
      >>=-elim (rrd_cf_conv rra.cf_nam) _ h λ cf _ h1.
        let first = start_pdp_offset rra.pdp_cnt proc in
        let step_cnt = rra_step_cnt elapsed first rra.pdp_cnt rra.row_cnt in
        let smoothing = smooth_step (is_seasonal cf) rra elapsed in
        let skip = is_seasonal cf && ltb 1 step_cnt in
        >>=-elim (if skip then skip_ahead rra ds_cnt start elapsed p else some p) _ h1 λ p1 e h2.
          >>=-elim (update_cdp_prep rra cf elapsed first step_cnt p1 0 smoothing.1.cdps temp) _ h2
            λ cdps _ h3.
              let same : p1.file.cells ≡ p.file.cells =
                skipping-cells skip rra ds_cnt start elapsed p e in
              cc

  pub update_all_cdp_prep-cells :
      (rras : List (Rra D)) (ds_cnt start elapsed proc : ℕ) (temp : List D) (p : Progress D)
      {outs : List (Pending D)} {p' : Progress D}
      → update_all_cdp_prep rras ds_cnt start elapsed proc temp p ≡ some (outs, p')
      → p'.file.cells ≡ p.file.cells
  unfolding update_all_cdp_prep
  update_all_cdp_prep-cells [] ds_cnt start elapsed proc temp p h = cc
  update_all_cdp_prep-cells (rra ∷ rras) ds_cnt start elapsed proc temp p h =
      >>=-elim (prepare_rra rra ds_cnt start elapsed proc temp p) _ h λ first e h1.
        let next = start + rra.row_cnt * ds_cnt in
        >>=-elim (update_all_cdp_prep rras ds_cnt next elapsed proc temp first.1) _ h1 λ rest e' h2.
          let here : first.1.file.cells ≡ p.file.cells =
            prepare_rra-cells rra ds_cnt start elapsed proc temp p e in
          let there : rest.1.file.cells ≡ first.1.file.cells =
            update_all_cdp_prep-cells rras ds_cnt next elapsed proc temp first.1 e' in
          cc
