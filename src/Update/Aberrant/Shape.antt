-- ===== src/Update/Aberrant/Shape.antt =====
-- `update_aberrant_cdps` leaves the file and the shape of the archives alone.
use rrdtool_1_x.Prelude.{
  ℕ, suc, ◌+◌, ◌*◌, ◌≡◌, ◌∙◌, inl, inr, some, List, [], ◌∷◌, ◌==◌, All, Bool-cases, >>=-elim,
  some_pair-first, some_inj,
}
use mathlib.Core.Path.{subst}
use rrdtool_1_x.Format.{Cf, rrd_cf_conv}
use rrdtool_1_x.Update.Write.{ScratchIdx, primary, secondary, Pending}
use rrdtool_1_x.Update.Prepare.{Progress, is_seasonal, lookup_seasonal}
use rrdtool_1_x.Update.Prepare.Reads.{lookup_seasonal-cells}
use rrdtool_1_x.Update.Prepare.Ready.{IsSound, pending_layout}
use rrdtool_1_x.Update.Aberrant.{
  aberrant_sources, next_seasonal, aberrant_rras, update_aberrant_cdps,
}
use rrdtool_1_x.Prelude.Double.{Double}
use rrdtool_1_x.Hw.Aberrant.{update_aberrant_cf}
use rrdtool_1_x.Hw.Layout.{SameShape, SameShape-refl, SameShape-trans, update_aberrant_cf-SameShape}

module _ {D : Type 0} ⦃d : Double D⦄ (ds_cnt : ℕ) where
  aberrant_sources-SameShape :
      (temp : List D) (j : ℕ) (ps : List (Pending D)) (cf : Cf) (i : ℕ) (k : ScratchIdx)
      (coef : List D) {out : List (Pending D)}
      → aberrant_sources ps temp cf i j k coef ≡ some out
      → SameShape ds_cnt ps out
  unfolding aberrant_sources
  aberrant_sources-SameShape [] j ps cf i k coef h =
      subst (SameShape ds_cnt ps) (some_inj h) (SameShape-refl ds_cnt ps)
  aberrant_sources-SameShape (v ∷ temp) j ps cf i k coef {out} h =
      >>=-elim (update_aberrant_cf ps v cf i j k coef) _ h λ mid e h1.
        SameShape-trans ds_cnt ps mid out (update_aberrant_cf-SameShape ds_cnt ps v cf i j k coef e)
          (aberrant_sources-SameShape temp (suc j) mid cf i k coef h1)

  next_seasonal-cells :
      (q : Pending D) (cf : Cf) (start offset : ℕ) (p : Progress D) {p' : Progress D}
      → next_seasonal q cf ds_cnt start offset p ≡ some p'
      → p'.file.cells ≡ p.file.cells
  unfolding next_seasonal
  next_seasonal-cells q cf start offset p h = elim (Bool-cases (is_seasonal cf)) [
    | inl e ↦
        let h' = rw e at h in
        >>=-elim (lookup_seasonal q.rra ds_cnt start p.file offset) _ h'
          λ read e' h1. let same = lookup_seasonal-cells q.rra ds_cnt start p.file offset e' in cc
    | inr e ↦ let h' = rw e at h in cc
  ]

  abbrev pub Kept : List (Pending D) → Progress D → List (Pending D) → Progress D → Type 0
  Kept ps p out p' =
      (All (IsSound ds_cnt) out × (pending_layout out ≡ pending_layout ps))
      × (p'.file.cells ≡ p.file.cells)

  aberrant_rras-Kept :
      (qs : List (Pending D)) (i start : ℕ) (ps : List (Pending D)) (p : Progress D) (temp : List D)
      (k : ScratchIdx) (offset : ℕ) {out : List (Pending D)} {p' : Progress D}
      → All (IsSound ds_cnt) ps
      → aberrant_rras qs ps temp ds_cnt i start k offset p ≡ some (out, p')
      → Kept ps p out p'
  unfolding aberrant_rras
  aberrant_rras-Kept [] i start ps p temp k offset sound h =
      (subst (SameShape ds_cnt ps) (some_pair-first h) (SameShape-refl ds_cnt ps) sound, cc)
  aberrant_rras-Kept (q ∷ qs) i start ps p temp k offset sound h =
      let next = start + q.rra.row_cnt * ds_cnt in
      elim (Bool-cases (q.rra.pdp_cnt == 1)) [
        | inl e ↦
            let h' = rw e at h in
            >>=-elim (rrd_cf_conv q.rra.cf_nam) _ h' λ cf _ h1.
              >>=-elim (next_seasonal q cf ds_cnt start offset p) _ h1 λ p1 e1 h2.
                >>=-elim (aberrant_sources ps temp cf i 0 k p1.seasonal_coef) _ h2 λ ps1 e2 h3.
                  let (sound1, same1) =
                    aberrant_sources-SameShape temp 0 ps cf i k p1.seasonal_coef e2 sound in
                  let ((sound2, same2), cells) =
                    aberrant_rras-Kept qs (suc i) next ps1 p1 temp k offset sound1 h3 in
                  ((sound2, same2 ∙ same1), cells ∙ next_seasonal-cells q cf start offset p e1)
        | inr e ↦
            let h' = rw e at h in aberrant_rras-Kept qs (suc i) next ps p temp k offset sound h'
      ]

  pub update_aberrant_cdps-Kept :
      (ps : List (Pending D)) (elapsed : ℕ) (temp : List D) (p : Progress D)
      {out : List (Pending D)} {p' : Progress D}
      → All (IsSound ds_cnt) ps
      → update_aberrant_cdps ps ds_cnt elapsed temp p ≡ some (out, p')
      → Kept ps p out p'
  unfolding update_aberrant_cdps
  update_aberrant_cdps-Kept ps elapsed temp p sound h = elim (Bool-cases (elapsed == 1)) [
    | inl e ↦
        let h' = rw e at h in aberrant_rras-Kept ps 0 0 ps p temp primary (elapsed + 1) sound h'
    | inr e ↦ elim (Bool-cases (elapsed == 2)) [
      | inl e2 ↦
          let h' = rw (e, e2) at h in
          >>=-elim (aberrant_rras ps ps temp ds_cnt 0 0 primary (elapsed + 1) p) _ h' λ first e3 h1.
            let ((sound1, same1), cells1) =
              aberrant_rras-Kept ps 0 0 ps p temp primary (elapsed + 1) sound e3 in
            let ((sound2, same2), cells2) =
              aberrant_rras-Kept first.0 0 0 first.0 first.1 temp secondary (elapsed + 2) sound1
                h1 in
            ((sound2, same2 ∙ same1), cells2 ∙ cells1)
      | inr e2 ↦
          let h' = rw (e, e2) at h in
          (subst (SameShape ds_cnt ps) (some_pair-first h') (SameShape-refl ds_cnt ps) sound, cc)
    ]
  ]
