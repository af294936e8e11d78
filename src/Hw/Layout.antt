-- ===== src/Hw/Layout.antt =====
-- The prediction changes entries of `cdp_prep` only.
use rrdtool_1_x.Prelude.{
  ℕ, zero, suc, ◌≡◌, refl, ap, ◌∙◌, Option, none, some, List, [], ◌∷◌, length-set, All, >>=-elim,
  some_inj, get_elem?,
}
use mathlib.Core.Path.{subst}
use rrdtool_1_x.Prelude.Double.{Double}
use rrdtool_1_x.Format.{
  Cf, average, minimum, maximum, last, hwpredict, seasonal, devpredict, devseasonal, failures,
  mhwpredict, Cdp,
}
use rrdtool_1_x.Update.Write.{ScratchIdx, Pending}
use rrdtool_1_x.Update.Prepare.Ready.{IsSound, pending_layout}
use rrdtool_1_x.Hw.{put_scratch, get_cdp, put_cdp, get_rra, HwFunctions, hw_additive_functions}
use rrdtool_1_x.Hw.Predict.{
  save_coefs, shift_seasonal, update_devpredict, update_hwpredict, update_seasonal,
}
use rrdtool_1_x.Hw.Deviation.{find_violation, record_violation, update_devseasonal, update_failures}
use rrdtool_1_x.Hw.Aberrant.{
  dependent_functions, with_functions, aberrant_switch, update_aberrant_cf,
}

module _ {D : Type 0} (ds_cnt : ℕ) where
  -- sound archives, in the same places of the file
  abbrev pub SameShape : List (Pending D) → List (Pending D) → Type 0
  SameShape ps out =
      All (IsSound ds_cnt) ps → All (IsSound ds_cnt) out × (pending_layout out ≡ pending_layout ps)

  pub SameShape-refl : (ps : List (Pending D)) → SameShape ps ps
  SameShape-refl ps h = (h, refl)

  pub SameShape-trans : (a b c : List (Pending D)) → SameShape a b → SameShape b c → SameShape a c
  SameShape-trans a b c f g h =
      let (sound, same) = f h in let (sound', same') = g sound in (sound', same' ∙ same)

  pub put_cdp-SameShape :
      (ps : List (Pending D)) (i j : ℕ) (c : Cdp D) → SameShape ps (put_cdp ps i j c)
  unfolding put_cdp
  put_cdp-SameShape [] i j c h = (h, refl)
  put_cdp-SameShape (p ∷ ps) zero j c h = (
    (
      (
        record {
          row_inside = h.0.0.row_inside;
          rows_fit = h.0.0.rows_fit;
          one_each = length-set p.rra.cdps j c ∙ h.0.0.one_each;
          at_most_all = h.0.0.at_most_all;
        },
        h.0.1,
      ),
      h.1,
    ),
    refl,
  )
  put_cdp-SameShape (p ∷ ps) (suc i) j c h =
      let (sound, same) = put_cdp-SameShape ps i j c h.1 in
      ((h.0, sound), ap (λ l. (p.rra.row_cnt, p.rra.pdp_cnt) ∷ l) same)

  put-SameShape :
      (ps : List (Pending D)) (i j : ℕ) (c : Cdp D) {out : List (Pending D)}
      → some (put_cdp ps i j c) ≡ some out
      → SameShape ps out
  put-SameShape ps i j c h = subst (SameShape ps) (some_inj h) (put_cdp-SameShape ps i j c)

  put_twice-SameShape :
      (ps : List (Pending D)) (i j : ℕ) (c e : Cdp D) {out : List (Pending D)}
      → some (put_cdp (put_cdp ps i j c) i j e) ≡ some out
      → SameShape ps out
  put_twice-SameShape ps i j c e {out} h =
      SameShape-trans ps (put_cdp ps i j c) out (put_cdp-SameShape ps i j c)
        (put-SameShape (put_cdp ps i j c) i j e h)

module _ {D : Type 0} ⦃d : Double D⦄ (ds_cnt : ℕ) (f : HwFunctions D) (ps : List (Pending D))
    (i j : ℕ) (k : ScratchIdx) where
  update_hwpredict-SameShape :
      {out : List (Pending D)} → update_hwpredict f ps i j k ≡ some out → SameShape ds_cnt ps out
  unfolding update_hwpredict
  update_hwpredict-SameShape h = >>=-elim (get_rra ps i) _ h λ rra _ h1.
      >>=-elim (get_cdp ps i j) _ h1 λ c _ h2.
        >>=-elim (get_cdp (put_cdp ps i j (save_coefs c)) rra.dependent_rra_idx j) _ h2
          λ s _ h3. put_twice-SameShape ds_cnt ps i j _ _ h3

  update_devpredict-SameShape :
      {out : List (Pending D)} → update_devpredict ps i j k ≡ some out → SameShape ds_cnt ps out
  unfolding update_devpredict
  update_devpredict-SameShape h = >>=-elim (get_rra ps i) _ h λ rra _ h1.
      >>=-elim (get_cdp ps rra.dependent_rra_idx j) _ h1
        λ s _ h2. >>=-elim (get_cdp ps i j) _ h2 λ c _ h3. put-SameShape ds_cnt ps i j _ h3

  update_seasonal-SameShape :
      (coef : List D) {out : List (Pending D)}
      → update_seasonal f ps i j k coef ≡ some out
      → SameShape ds_cnt ps out
  unfolding update_seasonal
  update_seasonal-SameShape coef h = >>=-elim (get_rra ps i) _ h λ rra _ h1.
      >>=-elim (get_rra ps rra.dependent_rra_idx) _ h1 λ hw_rra _ h2.
        >>=-elim (get_cdp ps i j) _ h2 λ c _ h3. >>=-elim (get_elem? coef j) _ h3 λ next _ h4.
          >>=-elim (get_cdp (put_cdp ps i j (shift_seasonal c next)) rra.dependent_rra_idx j) _ h4
            λ coefs _ h5. put_twice-SameShape ds_cnt ps i j _ _ h5

  update_devseasonal-SameShape :
      (coef : List D) {out : List (Pending D)}
      → update_devseasonal f ps i j k coef ≡ some out
      → SameShape ds_cnt ps out
  unfolding update_devseasonal
  update_devseasonal-SameShape coef h = >>=-elim (get_rra ps i) _ h λ rra _ h1.
      >>=-elim (get_rra ps rra.dependent_rra_idx) _ h1 λ hw_rra _ h2.
        >>=-elim (get_cdp ps i j) _ h2 λ c _ h3. >>=-elim (get_elem? coef j) _ h3 λ next _ h4.
          let mid = put_cdp ps i j (shift_seasonal c next) in
          >>=-elim (get_cdp mid rra.dependent_rra_idx j) _ h4 λ coefs _ h5.
            >>=-elim (get_cdp mid hw_rra.dependent_rra_idx j) _ h5
              λ s _ h6. put_twice-SameShape ds_cnt ps i j _ _ h6

  update_failures-SameShape :
      {out : List (Pending D)} → update_failures f ps i j k ≡ some out → SameShape ds_cnt ps out
  unfolding update_failures
  update_failures-SameShape h = >>=-elim (get_rra ps i) _ h λ rra _ h1.
      >>=-elim (get_rra ps rra.dependent_rra_idx) _ h1 λ dev_rra _ h2.
        >>=-elim (get_rra ps dev_rra.dependent_rra_idx) _ h2 λ hw_rra _ h3.
          >>=-elim (get_cdp ps rra.dependent_rra_idx j) _ h3 λ dev _ h4.
            >>=-elim (get_cdp ps i j) _ h4 λ c _ h5.
              >>=-elim (find_violation f ps rra i _ _ j _ _) _ h5 λ v _ h6.
                >>=-elim (record_violation rra.window_len c.violations v) _ h6
                  λ r _ h7. put-SameShape ds_cnt ps i j _ h7

module _ {D : Type 0} ⦃d : Double D⦄ (ds_cnt : ℕ) (ps : List (Pending D)) (i j : ℕ) (k : ScratchIdx)
    (coef : List D) where
  with_functions-SameShape :
      (fs : Option (HwFunctions D)) (update : HwFunctions D → Option (List (Pending D)))
      {out : List (Pending D)}
      → ((f : HwFunctions D) → update f ≡ some out → SameShape ds_cnt ps out)
      → with_functions fs ps update ≡ some out
      → SameShape ds_cnt ps out
  unfolding with_functions
  with_functions-SameShape none update each h =
      subst (SameShape ds_cnt ps) (some_inj h) (SameShape-refl ds_cnt ps)
  with_functions-SameShape (some f) update each h = each f h

  unchanged-SameShape : {out : List (Pending D)} → some ps ≡ some out → SameShape ds_cnt ps out
  unchanged-SameShape h = subst (SameShape ds_cnt ps) (some_inj h) (SameShape-refl ds_cnt ps)

  aberrant_switch-SameShape :
      (cf : Cf) {out : List (Pending D)}
      → aberrant_switch cf ps i j k coef ≡ some out
      → SameShape ds_cnt ps out
  unfolding aberrant_switch
  aberrant_switch-SameShape average h = unchanged-SameShape h
  aberrant_switch-SameShape minimum h = unchanged-SameShape h
  aberrant_switch-SameShape maximum h = unchanged-SameShape h
  aberrant_switch-SameShape last h = unchanged-SameShape h
  aberrant_switch-SameShape hwpredict h = update_hwpredict-SameShape ds_cnt _ ps i j k h
  aberrant_switch-SameShape mhwpredict h = update_hwpredict-SameShape ds_cnt _ ps i j k h
  aberrant_switch-SameShape devpredict h =
      update_devpredict-SameShape ds_cnt hw_additive_functions ps i j k h
  aberrant_switch-SameShape seasonal h = >>=-elim (dependent_functions ps i) _ h λ fs _ h1.
      with_functions-SameShape fs _ (λ f e. update_seasonal-SameShape ds_cnt f ps i j k coef e) h1
  aberrant_switch-SameShape devseasonal h = >>=-elim (dependent_functions ps i) _ h λ fs _ h1.
      with_functions-SameShape fs _ (λ f e. update_devseasonal-SameShape ds_cnt f ps i j k coef e)
        h1
  aberrant_switch-SameShape failures h = >>=-elim (get_rra ps i) _ h λ rra _ h1.
      >>=-elim (dependent_functions ps rra.dependent_rra_idx) _ h1 λ fs _ h2.
        with_functions-SameShape fs _ (λ f e. update_failures-SameShape ds_cnt f ps i j k e) h2

-- Where `update_aberrant_CF` finds all the entries that it uses, sound archives stay sound and in
-- their places.
pub update_aberrant_cf-SameShape :
    {D : Type 0} ⦃d : Double D⦄ (ds_cnt : ℕ) (ps : List (Pending D)) (v : D) (cf : Cf) (i j : ℕ)
    (k : ScratchIdx) (coef : List D) {out : List (Pending D)}
    → update_aberrant_cf ps v cf i j k coef ≡ some out
    → SameShape ds_cnt ps out
unfolding update_aberrant_cf
update_aberrant_cf-SameShape ds_cnt ps v cf i j k coef {out} h =
    >>=-elim (get_cdp ps i j) _ h λ c _ h1.
      let mid = put_cdp ps i j (put_scratch k v c) in
      SameShape-trans ds_cnt ps mid out (put_cdp-SameShape ds_cnt ps i j (put_scratch k v c))
        (aberrant_switch-SameShape ds_cnt mid i j k coef cf h1)
