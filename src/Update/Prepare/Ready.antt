-- ===== src/Update/Prepare/Ready.antt =====
-- `update_all_cdp_prep` leaves every archive ready for `write_to_rras`.
use rrdtool_1_x.Prelude.{
  ℕ, suc, ◌+◌, ◌-◌, ◌*◌, ◌/◌, ◌<◌, min, ◌≡◌, refl, ◌∙◌, Bool, true, false, some, List, [], ◌∷◌,
  arith, ltb, ◌&&◌, if◌then◌else◌, length, word, All, >>=-eq-some, >>=-elim, some_pair-first,
}
use mathlib.Core.Path.{sym, ap, subst, ap₂}
use rrdtool_1_x.Prelude.Double.{Double}
use rrdtool_1_x.Format.{Cf, rrd_cf_conv, Cdp, Rra}
use rrdtool_1_x.Update.Steps.{start_pdp_offset, rra_step_cnt}
use rrdtool_1_x.Update.Steps.Count.{rra_step_cnt_lem}
use rrdtool_1_x.Update.Write.{Pending}
use rrdtool_1_x.Update.Write.Archives.{IsReady, extent}
use rrdtool_1_x.Update.Prepare.{
  schedule_smooth, do_schedule_smooth, smooth_step, is_seasonal, Progress, prepare_cdp,
  update_cdp_prep, skip_ahead, prepare_rra, update_all_cdp_prep,
}

-- The row pointer is inside the archive, and there is an entry of `cdp_prep` for each data source.
pub record IsWellFormed {D : Type 0} (ds_cnt : ℕ) (rra : Rra D) : Type 0 where
  pub row_inside : rra.cur_row < rra.row_cnt
  pub rows_fit : rra.row_cnt < word
  pub pdps_fit : (0 < rra.pdp_cnt) × (rra.pdp_cnt < word)
  pub one_each : length rra.cdps ≡ ds_cnt

abbrev pub rows_of : {D : Type 0} → ℕ → List (Rra D) → ℕ
rows_of ds_cnt [] = 0
rows_of ds_cnt (rra ∷ rras) = rra.row_cnt * ds_cnt + rows_of ds_cnt rras

-- the rows of each archive and the PDPs of a row
abbrev pub layout_of : {D : Type 0} → List (Rra D) → List (ℕ × ℕ)
layout_of [] = []
layout_of (rra ∷ rras) = (rra.row_cnt, rra.pdp_cnt) ∷ layout_of rras

abbrev pub pending_layout : {D : Type 0} → List (Pending D) → List (ℕ × ℕ)
pending_layout [] = []
pending_layout (p ∷ ps) = (p.rra.row_cnt, p.rra.pdp_cnt) ∷ pending_layout ps

values_in : ℕ → List (ℕ × ℕ) → ℕ
values_in ds_cnt [] = 0
values_in ds_cnt ((rows, pdps) ∷ layout) = rows * ds_cnt + values_in ds_cnt layout

extent-values_in :
    {D : Type 0} (ds_cnt : ℕ) (ps : List (Pending D))
    → extent ds_cnt ps ≡ values_in ds_cnt (pending_layout ps)
unfolding values_in
extent-values_in ds_cnt [] = refl
extent-values_in ds_cnt (p ∷ ps) = ap (λ n. p.rra.row_cnt * ds_cnt + n) (extent-values_in ds_cnt ps)

rows_of-values_in :
    {D : Type 0} (ds_cnt : ℕ) (rras : List (Rra D))
    → rows_of ds_cnt rras ≡ values_in ds_cnt (layout_of rras)
unfolding values_in
rows_of-values_in ds_cnt [] = refl
rows_of-values_in ds_cnt (rra ∷ rras) =
    ap (λ n. rra.row_cnt * ds_cnt + n) (rows_of-values_in ds_cnt rras)

pub extent-rows_of :
    {D : Type 0} (ds_cnt : ℕ) (ps : List (Pending D)) (rras : List (Rra D))
    → pending_layout ps ≡ layout_of rras
    → extent ds_cnt ps ≡ rows_of ds_cnt rras
extent-rows_of ds_cnt ps rras same =
    extent-values_in ds_cnt ps ∙ ap (values_in ds_cnt) same ∙ sym (rows_of-values_in ds_cnt rras)

length-schedule :
    {D : Type 0} (rra : Rra D) (cdps : List (Cdp D)) (elapsed : ℕ)
    → length rra.cdps ≡ length cdps
    → length (schedule_smooth rra cdps elapsed).1.cdps ≡ length rra.cdps
unfolding schedule_smooth
length-schedule rra [] elapsed e = refl
length-schedule rra (c ∷ cdps) elapsed e = ground arith

length-smooth :
    {D : Type 0} (seasonal : Bool) (rra : Rra D) (elapsed : ℕ)
    → length (smooth_step seasonal rra elapsed).1.cdps ≡ length rra.cdps
unfolding do_schedule_smooth
length-smooth false rra elapsed = refl
length-smooth true rra elapsed = length-schedule rra rra.cdps elapsed refl

module _ {D : Type 0} where
  -- ready to be written, and fit for the next update
  abbrev pub IsSound : ℕ → Pending D → Type 0
  IsSound ds_cnt p = IsReady ds_cnt p × ((0 < p.rra.pdp_cnt) × (p.rra.pdp_cnt < word))

  pub All-IsReady :
      (ds_cnt : ℕ) (ps : List (Pending D)) → All (IsSound ds_cnt) ps → All (IsReady ds_cnt) ps
  All-IsReady ds_cnt [] h = tt
  All-IsReady ds_cnt (p ∷ ps) h = (h.0.0, All-IsReady ds_cnt ps h.1)

module _ {D : Type 0} ⦃d : Double D⦄ where
  length-update_cdp_prep :
      (rra : Rra D) (cf : Cf) (elapsed start step_cnt : ℕ) (p : Progress D) (i : ℕ)
      (cdps : List (Cdp D)) (temp : List D) {out : List (Cdp D)}
      → update_cdp_prep rra cf elapsed start step_cnt p i cdps temp ≡ some out
      → length out ≡ length cdps
  unfolding update_cdp_prep
  length-update_cdp_prep rra cf elapsed start step_cnt p i (c ∷ cdps) (v ∷ temp) h =
      let (c', _, h1) = >>=-eq-some (prepare_cdp rra cf elapsed start step_cnt p i c v) _ h in
      let (cs, h2, h3) =
        >>=-eq-some (update_cdp_prep rra cf elapsed start step_cnt p (suc i) cdps temp) _ h1 in
      ground
        (arith, h3, length-update_cdp_prep rra cf elapsed start step_cnt p (suc i) cdps temp h2)
  length-update_cdp_prep rra cf elapsed start step_cnt p i [] [] h = ground arith
  length-update_cdp_prep rra cf elapsed start step_cnt p i [] (v ∷ temp) h = ground arith
  length-update_cdp_prep rra cf elapsed start step_cnt p i (c ∷ cdps) [] h = ground arith

  -- What one archive gets: its rows counted as the boundaries that it crosses.
  pub record IsPrepared (ds_cnt elapsed proc : ℕ) (rra : Rra D) (out : Pending D) : Type 0 where
    pub ready : IsReady ds_cnt out
    pub same_place : (out.rra.cur_row ≡ rra.cur_row) × (out.rra.row_cnt ≡ rra.row_cnt)
    pub same_pdps : out.rra.pdp_cnt ≡ rra.pdp_cnt
    pub crossed :
        out.step_cnt ≡ min ((proc + elapsed) / rra.pdp_cnt - proc / rra.pdp_cnt) rra.row_cnt

  prepared :
      (rra : Rra D) (ds_cnt elapsed proc : ℕ) (cdps : List (Cdp D)) (skip : Bool)
      → IsWellFormed ds_cnt rra
      → elapsed + 1 < word
      → length cdps ≡ length rra.cdps
      → IsPrepared ds_cnt elapsed proc rra (record {
        rra = record rra { cdps = cdps };
        step_cnt = rra_step_cnt elapsed (start_pdp_offset rra.pdp_cnt proc) rra.pdp_cnt rra.row_cnt;
        skip_update = skip;
      })
  prepared rra ds_cnt elapsed proc cdps skip w big same =
      let count =
        rra_step_cnt_lem proc elapsed rra.pdp_cnt rra.row_cnt w.pdps_fit.0 w.pdps_fit.1 big in
      record {
        ready = record {
          row_inside = w.row_inside;
          rows_fit = w.rows_fit;
          one_each = same ∙ w.one_each;
          at_most_all = omega (arith, count);
        };
        same_place = (refl, refl);
        same_pdps = refl;
        crossed = count;
      }

  prepare_rra-IsPrepared :
      (rra : Rra D) (ds_cnt start elapsed proc : ℕ) (temp : List D) (p : Progress D)
      {out : Pending D} {p' : Progress D}
      → IsWellFormed ds_cnt rra
      → elapsed + 1 < word
      → prepare_rra rra ds_cnt start elapsed proc temp p ≡ some (out, p')
      → IsPrepared ds_cnt elapsed proc rra out
  unfolding prepare_rra
  prepare_rra-IsPrepared rra ds_cnt start elapsed proc temp p {out} {p'} w big h =
      >>=-elim (rrd_cf_conv rra.cf_nam) _ h λ cf _ h1.
        let first = start_pdp_offset rra.pdp_cnt proc in
        let step_cnt = rra_step_cnt elapsed first rra.pdp_cnt rra.row_cnt in
        let smoothing = smooth_step (is_seasonal cf) rra elapsed in
        let skip = is_seasonal cf && ltb 1 step_cnt in
        >>=-elim (if skip then skip_ahead rra ds_cnt start elapsed p else some p) _ h1 λ p1 _ h2.
          >>=-elim (update_cdp_prep rra cf elapsed first step_cnt p1 0 smoothing.1.cdps temp) _ h2
            λ cdps h3 h4. subst (IsPrepared ds_cnt elapsed proc rra) (some_pair-first h4) (
              prepared rra ds_cnt elapsed proc cdps (is_seasonal cf && ltb 1 step_cnt) w big (
                length-update_cdp_prep rra cf elapsed first step_cnt p1 0 smoothing.1.cdps temp h3
                ∙ length-smooth (is_seasonal cf) rra elapsed))

  abbrev pub AllPrepared : ℕ → ℕ → ℕ → List (Rra D) → List (Pending D) → Type 0
  AllPrepared ds_cnt elapsed proc [] [] = Unit
  AllPrepared ds_cnt elapsed proc (rra ∷ rras) (out ∷ outs) =
      IsPrepared ds_cnt elapsed proc rra out × AllPrepared ds_cnt elapsed proc rras outs
  AllPrepared ds_cnt elapsed proc _ _ = ⊥

  -- Where `update_all_cdp_prep` succeeds on well-formed archives, for fewer than 2 ^ 64 - 1 steps,
  -- each is ready for its rows to be written, its place in the file is unchanged, and its number of
  -- rows is that of the boundaries of its rows among the elapsed PDPs, at most all its rows.
  pub update_all_cdp_prep-AllPrepared :
      (rras : List (Rra D)) (ds_cnt start elapsed proc : ℕ) (temp : List D) (p : Progress D)
      {outs : List (Pending D)} {p' : Progress D}
      → All (IsWellFormed ds_cnt) rras
      → elapsed + 1 < word
      → update_all_cdp_prep rras ds_cnt start elapsed proc temp p ≡ some (outs, p')
      → AllPrepared ds_cnt elapsed proc rras outs
  unfolding update_all_cdp_prep
  update_all_cdp_prep-AllPrepared [] ds_cnt start elapsed proc temp p {outs} {p'} w big h =
      subst (AllPrepared ds_cnt elapsed proc []) (some_pair-first h) tt
  update_all_cdp_prep-AllPrepared (rra ∷ rras) ds_cnt start elapsed proc temp p {outs} {p'} w big
        h =
      >>=-elim (prepare_rra rra ds_cnt start elapsed proc temp p) _ h λ first e h1.
        >>=-elim
          (update_all_cdp_prep rras ds_cnt (start + rra.row_cnt * ds_cnt) elapsed proc temp first.1)
          _ h1
          λ rest e' h2. subst (AllPrepared ds_cnt elapsed proc (rra ∷ rras)) (some_pair-first h2) (
            prepare_rra-IsPrepared rra ds_cnt start elapsed proc temp p w.0 big e,
            update_all_cdp_prep-AllPrepared rras ds_cnt (start + rra.row_cnt * ds_cnt) elapsed proc
                temp first.1 w.1 big e',
          )

  pub AllPrepared-IsSound :
      (rras : List (Rra D)) (ds_cnt elapsed proc : ℕ) (outs : List (Pending D))
      → All (IsWellFormed ds_cnt) rras
      → AllPrepared ds_cnt elapsed proc rras outs
      → All (IsSound ds_cnt) outs × (pending_layout outs ≡ layout_of rras)
  AllPrepared-IsSound [] ds_cnt elapsed proc [] w h = (tt, refl)
  AllPrepared-IsSound (rra ∷ rras) ds_cnt elapsed proc (out ∷ outs) w h =
      let (ready, size) = AllPrepared-IsSound rras ds_cnt elapsed proc outs w.1 h.1 in
      let (_, rows) = h.0.same_place in
      let (pos, fits) = w.0.pdps_fit in
      (
        ((h.0.ready, (omega (arith, h.0.same_pdps), omega (arith, h.0.same_pdps))), ready),
        ap₂ (λ a b. a ∷ b) (ap₂ (λ a b. (a, b)) rows h.0.same_pdps) size,
      )
  AllPrepared-IsSound [] ds_cnt elapsed proc (out ∷ outs) w h = elim h [ ]
  AllPrepared-IsSound (rra ∷ rras) ds_cnt elapsed proc [] w h = elim h [ ]
