-- ===== src/Update/Process/Safe.antt =====
-- An update argument keeps the database consistent: `process_arg` against the layout of the file.
use rrdtool_1_x.Prelude.{
  ℕ, suc, ◌+◌, ◌-◌, ◌*◌, ◌%◌, ◌≤◌, ◌<◌, ◌≡◌, refl, sym, ap, ◌∙◌, ◌⊎◌, inl, inr, ◌&&◌, Option, some,
  List, [], ◌∷◌, ◌++◌, map, arith, ltb, length, get_elem?, All, word, Bool-cases, >>=-elim,
  some_pair-first, some_inj,
}
use mathlib.Core.Path.{subst, ap₂}
use rrdtool_1_x.Prelude.Double.{Double}
use rrdtool_1_x.Format.{DataSource, Rra}
use rrdtool_1_x.Store.{File}
use rrdtool_1_x.Update.Write.{Pending, Summary, write_to_rras}
use rrdtool_1_x.Update.Write.Archives.{extent, moved, SameOutside, write_to_rras_lem}
use rrdtool_1_x.Update.Pdp.{process_pdp_st, process_all_from, process_all_pdp_st}
use rrdtool_1_x.Update.Prepare.{Progress, update_all_cdp_prep}
use rrdtool_1_x.Update.Prepare.Reads.{update_all_cdp_prep-cells}
use rrdtool_1_x.Update.Prepare.Ready.{
  IsWellFormed, rows_of, layout_of, pending_layout, extent-rows_of, IsSound, AllPrepared-IsSound,
  All-IsReady, update_all_cdp_prep-AllPrepared,
}
use rrdtool_1_x.Update.Aberrant.{update_aberrant_cdps}
use rrdtool_1_x.Update.Aberrant.Shape.{update_aberrant_cdps-Kept}
use rrdtool_1_x.Update.Process.{State, Work, close_pdps, close_open, close_first, close_all}

-- `process_all_pdp_st` keeps the number of data sources.
module _ {D : Type 0} ⦃d : Double D⦄ (compute : DataSource D → List D → ℕ → Option D) where
  process_all_from-length :
      (sources : List (DataSource D)) (pdp_new rates : List D) (a b c : D) (m n : ℕ)
      {out : List (DataSource D)} {rs : List D}
      → process_all_from compute rates sources pdp_new a b c m n ≡ some (out, rs)
      → length out ≡ length sources
  unfolding process_all_from
  process_all_from-length (s ∷ sources) (v ∷ pdp_new) rates a b c m n {out} h =
      >>=-elim (process_pdp_st compute s rates v a b c m n) _ h λ first e h1.
        let later = rates ++ first.1 ∷ [] in
        >>=-elim (process_all_from compute later sources pdp_new a b c m n) _ h1 λ rest e' h2.
          let same : length rest.0 ≡ length sources =
            process_all_from-length sources pdp_new later a b c m n e' in
          subst (λ o. length o ≡ suc (length sources)) (some_pair-first h2) (ap suc same)
  process_all_from-length [] [] rates a b c m n h = sym (ap length (some_pair-first h))
  process_all_from-length [] (v ∷ pdp_new) rates a b c m n h = sym (ap length (some_pair-first h))
  process_all_from-length (s ∷ sources) [] rates a b c m n h = sym (ap length (some_pair-first h))

  pub process_all_pdp_st-length :
      (step : ℕ) (sources : List (DataSource D)) (a b c : D) (n : ℕ) (pdp_new : List D)
      {out : List (DataSource D)} {rs : List D}
      → process_all_pdp_st compute step sources a b c n pdp_new ≡ some (out, rs)
      → length out ≡ length sources
  unfolding process_all_pdp_st
  process_all_pdp_st-length step sources a b c n pdp_new h =
      process_all_from-length sources pdp_new [] a b c _ step h

-- The file holds `size` values of the archives, each with a row of `ds` values.
pub record IsConsistent {D : Type 0} (ds size : ℕ) (st : State D) : Type 0 where
  pub each_source : length st.rrd.sources ≡ ds
  pub well_formed : All (IsWellFormed ds) st.rrd.archives
  pub extent_known : rows_of ds st.rrd.archives ≡ size
  pub room : size ≤ length st.progress.file.cells

-- the archives after their rows are written
moved-IsWellFormed :
    {D : Type 0} (ds : ℕ) (ps : List (Pending D))
    → All (IsSound ds) ps
    → All (IsWellFormed ds) (map moved ps) × (rows_of ds (map moved ps) ≡ extent ds ps)
moved-IsWellFormed ds [] h = (tt, refl)
moved-IsWellFormed ds (p ∷ ps) h =
    let (rest, size) = moved-IsWellFormed ds ps h.1 in
    let (ready, pdps) = h.0 in
    (
      (
        record {
          row_inside = omega (arith, ready.row_inside);
          rows_fit = ready.rows_fit;
          pdps_fit = pdps;
          one_each = ready.one_each;
        },
        rest,
      ),
      ap (λ k. p.rra.row_cnt * ds + k) size,
    )

moved_layout : {D : Type 0} (ps : List (Pending D)) → layout_of (map moved ps) ≡ pending_layout ps
moved_layout [] = refl
moved_layout (p ∷ ps) = ap (λ l. (p.rra.row_cnt, p.rra.pdp_cnt) ∷ l) (moved_layout ps)

module _ {D : Type 0} ⦃d : Double D⦄ (compute : DataSource D → List D → ℕ → Option D)
    (ds size : ℕ) where
  -- consistent after as before, nothing else in the file has changed, and each archive has as many
  -- rows as before, of as many PDPs
  pub record Advanced (st st' : State D) : Type 0 where
    pub consistent : IsConsistent ds size st'
    pub confined : SameOutside 0 size st.progress.file.cells st'.progress.file.cells
    pub same_step : st'.rrd.pdp_step ≡ st.rrd.pdp_step
    pub same_layout : layout_of st'.rrd.archives ≡ layout_of st.rrd.archives

  -- the state after the rows are written
  rows_done :
      (st : State D) (sources : List (DataSource D)) (ps : List (Pending D)) (p : Progress D)
      (now : ℕ) (written : List (Rra D) × File D × Summary D)
      → length sources ≡ ds
      → All (IsSound (length sources)) ps
      → pending_layout ps ≡ layout_of st.rrd.archives
      → p.file.cells ≡ st.progress.file.cells
      → IsConsistent ds size st
      → write_to_rras sources st.rrd.pdp_step now ps 0 p.file st.summary ≡ some written
      → Advanced st (record {
        rrd = record st.rrd { sources = sources; archives = written.0 };
        progress = record p { file = written.1 };
        summary = written.2;
      })
  rows_done st sources ps p now written number sound kept cells ok e =
      let all = length sources in
      let total : extent all ps ≡ size =
        extent-rows_of all ps st.rrd.archives kept
        ∙ ap (λ k. rows_of k st.rrd.archives) number
        ∙ ok.extent_known in
      let space : size ≤ length p.file.cells = omega (arith, ok.room, ap length cells) in
      let (f', summary', ran, _, (long, same)) =
        write_to_rras_lem sources st.rrd.pdp_step now ps 0 p.file st.summary
          (All-IsReady all ps sound) (omega arith) in
      let rras : written.0 ≡ map moved ps = ap (λ t. t.0) (some_inj (sym e ∙ ran)) in
      let file : written.1 ≡ f' = ap (λ t. t.1) (some_inj (sym e ∙ ran)) in
      let (well, rows) = moved-IsWellFormed all ps sound in
      record {
        consistent = record {
          each_source = number;
          well_formed =
              subst (λ k. All (IsWellFormed k) written.0) number
                (subst (All (IsWellFormed all)) (sym rras) well);
          extent_known = ap₂ (λ k l. rows_of k l) (sym number) rras ∙ rows ∙ total;
          room = omega (arith, ap (λ k. length k.cells) file, long);
        };
        confined = (
          ap (λ k. length k.cells) file ∙ long ∙ ap length cells,
          λ i o.
              ap (λ k. get_elem? k.cells i) file
              ∙ same i (subst (λ k. (i < 0) ⊎ (k ≤ i)) (sym (omega (arith, total))) o)
              ∙ ap (λ k. get_elem? k i) cells,
        );
        same_step = refl;
        same_layout = ap layout_of rras ∙ moved_layout ps ∙ kept;
      }

  close_pdps-Advanced :
      (w : Work D) (post_int : D) (now : ℕ) (st : State D) {st' : State D}
      → IsConsistent ds size st
      → w.elapsed_pdp_st + 1 < word
      → close_pdps compute w post_int now st ≡ some st'
      → Advanced st st'
  unfolding close_pdps
  close_pdps-Advanced w post_int now st {st'} ok fits h =
      let step = st.rrd.pdp_step in
      let elapsed = w.elapsed_pdp_st in
      >>=-elim
        (process_all_pdp_st compute step st.rrd.sources w.interval w.pre_int post_int elapsed
          w.pdp_new)
        _ h
        λ rates e1 h1.
          let number : length rates.0 ≡ ds =
            process_all_pdp_st-length compute step st.rrd.sources w.interval w.pre_int post_int
              elapsed w.pdp_new e1
            ∙ ok.each_source in
          >>=-elim
            (update_all_cdp_prep st.rrd.archives (length rates.0) 0 elapsed w.proc_pdp_cnt rates.1
              st.progress)
            _ h1
            λ ready e2 h2.
              >>=-elim (update_aberrant_cdps ready.0 (length rates.0) elapsed rates.1 ready.1) _ h2
                λ predicted e3 h3.
                  >>=-elim
                    (write_to_rras rates.0 step now predicted.0 0 predicted.1.file st.summary) _ h3
                    λ written e4 h4.
                      let n = length rates.0 in
                      let rras = st.rrd.archives in
                      let proc = w.proc_pdp_cnt in
                      let well =
                        subst (λ k. All (IsWellFormed k) rras) (sym number) ok.well_formed in
                      let (sound1, extent1) = AllPrepared-IsSound rras n elapsed proc ready.0 well (
                        update_all_cdp_prep-AllPrepared rras n 0 elapsed proc rates.1 st.progress
                          well fits e2) in
                      let ((sound2, extent2), cells2) =
                        update_aberrant_cdps-Kept n ready.0 elapsed rates.1 ready.1 sound1 e3 in
                      let cells1 =
                        update_all_cdp_prep-cells rras n 0 elapsed proc rates.1 st.progress e2 in
                      subst (Advanced st) (some_inj h4) (
                        rows_done st rates.0 predicted.0 predicted.1 now written number sound2
                          (extent2 ∙ extent1) (cells2 ∙ cells1) ok e4)

  Advanced-refl : (st : State D) → IsConsistent ds size st → Advanced st st
  Advanced-refl st ok = record {
    consistent = ok;
    confined = (refl, λ i o. refl);
    same_step = refl;
    same_layout = refl;
  }

  Advanced-trans : (a b c : State D) → Advanced a b → Advanced b c → Advanced a c
  Advanced-trans a b c h k =
      let (len1, same1) = h.confined in
      let (len2, same2) = k.confined in
      record {
        consistent = k.consistent;
        confined = (len2 ∙ len1, λ i o. same2 i o ∙ same1 i o);
        same_step = k.same_step ∙ h.same_step;
        same_layout = k.same_layout ∙ h.same_layout;
      }

  close_open-Advanced :
      (w : Work D) (sec : ℕ) (st : State D) {w' : Work D} {st' : State D}
      → IsConsistent ds size st
      → close_open compute w sec st ≡ some (w', st')
      → Advanced st st' × (w'.elapsed_pdp_st ≡ w.elapsed_pdp_st - 1)
  unfolding close_open
  close_open-Advanced w sec st ok h =
      >>=-elim (close_pdps compute _ (d.of_nat 0) (st.rrd.last_up + sec) st) _ h λ mid e h1.
        let done : Advanced st mid =
          close_pdps-Advanced _ (d.of_nat 0) (st.rrd.last_up + sec) st ok (omega arith) e in
        (
          subst (Advanced st) (ap (λ t. t.1) (some_inj h1)) done,
          sym (ap (λ t. t.0.elapsed_pdp_st) (some_inj h1)),
        )

  close_first-Advanced :
      (w : Work D) (st : State D) {w' : Work D} {st' : State D}
      → IsConsistent ds size st
      → close_first compute w st ≡ some (w', st')
      → Advanced st st' × (w'.elapsed_pdp_st ≤ w.elapsed_pdp_st)
  unfolding close_first
  close_first-Advanced w st ok h =
      let sec = d.to_nat w.pre_int % st.rrd.pdp_step in
      elim (Bool-cases (ltb 1 w.elapsed_pdp_st && ltb 0 sec)) [
        | inl e ↦
            let (done, less) = close_open-Advanced w sec st ok (rw e at h) in
            (done, omega (arith, less))
        | inr e ↦
            let same = some_inj (rw e at h) in
            (
              subst (Advanced st) (ap (λ t. t.1) same) (Advanced-refl st ok),
              omega (arith, ap (λ t. t.0.elapsed_pdp_st) same),
            )
      ]

  pub close_all-Advanced :
      (w : Work D) (post_int : D) (now : ℕ) (st : State D) {st' : State D}
      → IsConsistent ds size st
      → w.elapsed_pdp_st + 1 < word
      → close_all compute w post_int now st ≡ some st'
      → Advanced st st'
  unfolding close_all
  close_all-Advanced w post_int now st {st'} ok fits h =
      >>=-elim (close_first compute w st) _ h λ first e h1.
        let (done, less) = close_first-Advanced w st {w' = first.0} {st' = first.1} ok e in
        Advanced-trans st first.1 st' done
          (close_pdps-Advanced first.0 post_int now first.1 done.consistent (omega arith) h1)
