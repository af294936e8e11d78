-- ===== src/Hw/Failure.antt =====
-- What `update_failures` decides: a failure is enough violations in the window of its history.
use rrdtool_1_x.Prelude.{
  ℕ, zero, suc, Bool, true, false, not, ltb, ◌∙◌, ◌≤◌, ◌<◌, ◌^◌, ◌≡◌, refl, sym, inl, inr, some,
  List, [], ◌∷◌, arith, get_elem?-lt, get_elem?-set_self, take, Bool-cases, >>=-elim, some_inj,
}
use mathlib.Core.Path.{subst}
use rrdtool_1_x.Prelude.Double.{Double}
use rrdtool_1_x.Format.{Cdp, Rra}
use rrdtool_1_x.Update.Write.{ScratchIdx, primary, secondary, scratch_val, Pending}
use rrdtool_1_x.Hw.{put_scratch, get_cdp, put_cdp, get_rra, HwFunctions}
use rrdtool_1_x.Hw.Predict.{current_seasonal}
use rrdtool_1_x.Hw.Deviation.{
  violation_of, hw_is_violation, any_prediction, find_violation, failure_value, update_failures,
}
use rrdtool_1_x.Hw.Window.{total, IsBit, Shows, record_violation-Shows}

module _ {D : Type 0} where
  pub get_cdp-put_cdp :
      (ps : List (Pending D)) (i j : ℕ) (c : Cdp D) {before : Cdp D}
      → get_cdp ps i j ≡ some before
      → get_cdp (put_cdp ps i j c) i j ≡ some c
  unfolding get_cdp put_cdp
  get_cdp-put_cdp [] i j c h = cc
  get_cdp-put_cdp (p ∷ ps) zero j c h =
      get_elem?-set_self p.rra.cdps j c (get_elem?-lt p.rra.cdps j h)
  get_cdp-put_cdp (p ∷ ps) (suc i) j c h = get_cdp-put_cdp ps i j c h

  scratch_val-put : (k : ScratchIdx) (v : D) (c : Cdp D) → scratch_val k (put_scratch k v c) ≡ v
  scratch_val-put primary v c = refl
  scratch_val-put secondary v c = refl

  violations-put :
      (k : ScratchIdx) (v : D) (c : Cdp D) → (put_scratch k v c).violations ≡ c.violations
  violations-put primary v c = refl
  violations-put secondary v c = refl

module _ {D : Type 0} ⦃d : Double D⦄ where
  violation_of-IsBit : (rra : Rra D) (o p v : D) → IsBit (violation_of rra o p v)
  unfolding violation_of
  violation_of-IsBit rra o p v = ground arith

  find_violation-IsBit :
      (f : HwFunctions D) (ps : List (Pending D)) (rra : Rra D) (i hw s j : ℕ) (o v : D) {b : ℕ}
      → find_violation f ps rra i hw s j o v ≡ some b
      → IsBit b
  unfolding find_violation
  find_violation-IsBit f ps rra i hw s j o v {b} h = elim (Bool-cases (d.is_nan v)) [
    | inl e ↦ let h' = some_inj (rw e at h) in omega (arith, h')
    | inr e ↦
        let h' = rw e at h in
        >>=-elim (get_cdp ps s j) _ h' λ c _ h1.
          >>=-elim (get_cdp ps hw j) _ h1
            λ coefs _ h2. subst IsBit (some_inj h2) (violation_of-IsBit rra o _ v)
  ]

  -- A reading is a violation, as 1 or 0, exactly if the deviation is known and the reading is unknown
  -- or lies outside the band around the prediction.
  pub record Judged (rra : Rra D) (observed prediction deviation : D) (violation : ℕ) : Type 0 where
    pub unjudged : d.is_nan deviation ≡ true → violation ≡ 0
    pub missing : d.is_nan deviation ≡ false → d.is_nan observed ≡ true → violation ≡ 1
    pub above :
        d.is_nan deviation ≡ false
        → d.lt (d.add prediction (d.mul rra.hw_alpha deviation)) observed ≡ true
        → violation ≡ 1
    pub below :
        d.is_nan deviation ≡ false
        → d.lt observed (d.sub prediction (d.mul rra.hw_beta deviation)) ≡ true
        → violation ≡ 1
    pub inside :
        d.is_nan observed ≡ false
        → d.lt (d.add prediction (d.mul rra.hw_alpha deviation)) observed ≡ false
        → d.lt observed (d.sub prediction (d.mul rra.hw_beta deviation)) ≡ false
        → violation ≡ 0

  -- the prediction that the violation is judged by, where the deviation is known
  abbrev pub Predicts : HwFunctions D → List (Pending D) → ℕ → ℕ → ℕ → ℕ → D → D → Type 0
  Predicts f ps i hw s j deviation prediction =
      d.is_nan deviation ≡ false
      → (season coefs : Cdp D) × (get_cdp ps s j ≡ some season)
        × (get_cdp ps hw j ≡ some coefs)
        × (prediction
            ≡ any_prediction f (not (ltb i hw)) coefs (current_seasonal (not (ltb i s)) season))

  violation_of-Judged :
      (rra : Rra D) (o p v : D) → d.is_nan v ≡ false → Judged rra o p v (violation_of rra o p v)
  unfolding violation_of hw_is_violation
  violation_of-Judged rra o p v known = record {
    unjudged = λ h. ground (arith, h, known);
    missing = λ h k. ground (arith, k);
    above = λ h k. ground (arith, k);
    below = λ h k. ground (arith, k);
    inside = λ h k l. ground (arith, h, k, l);
  }

  find_violation-Judged :
      (f : HwFunctions D) (ps : List (Pending D)) (rra : Rra D) (i hw s j : ℕ) (o v : D) {b : ℕ}
      → find_violation f ps rra i hw s j o v ≡ some b
      → (p : D) × Predicts f ps i hw s j v p × Judged rra o p v b
  unfolding find_violation
  find_violation-Judged f ps rra i hw s j o v {b} h = elim (Bool-cases (d.is_nan v)) [
    | inl e ↦
        let none_there : b ≡ 0 = sym (some_inj (rw e at h)) in
        (
          v,
          λ known. absurd (unknown_known e known),
          record {
            unjudged = λ u. none_there;
            missing = λ known m. absurd (unknown_known e known);
            above = λ known m. absurd (unknown_known e known);
            below = λ known m. absurd (unknown_known e known);
            inside = λ k l m. none_there;
          },
        )
    | inr e ↦
        let h' = rw e at h in
        >>=-elim (get_cdp ps s j) _ h' λ season e1 h1.
          >>=-elim (get_cdp ps hw j) _ h1 λ coefs e2 h2.
            let p =
              any_prediction f (not (ltb i hw)) coefs (current_seasonal (not (ltb i s)) season) in
            (
              p,
              λ known. (season, coefs, e1, e2, refl),
              subst (Judged rra o p v) (some_inj h2) (violation_of-Judged rra o p v e),
            )
  ]
    where
      unknown_known : {x : Bool} → x ≡ true → x ≡ false → ⊥
      unknown_known h k = cc

  -- What `update_failures` leaves in the entry: the window of the history with the new reading, which
  -- is a violation or not, and 1 or 0.
  pub record Decided (f : HwFunctions D) (ps : List (Pending D)) (i j : ℕ) (rra : Rra D)
      (k : ScratchIdx) (before : Cdp D) (history : List ℕ) (after : Cdp D) : Type 0 where
    pub dev_rra : Rra D
    pub hw_rra : Rra D
    pub dev : Cdp D
    pub violation : ℕ
    pub bit : IsBit violation
    pub dev_there : get_rra ps rra.dependent_rra_idx ≡ some dev_rra
    pub hw_there : get_rra ps dev_rra.dependent_rra_idx ≡ some hw_rra
    pub dev_found : get_cdp ps rra.dependent_rra_idx j ≡ some dev
    pub judged :
        let hw = dev_rra.dependent_rra_idx in
        let s = hw_rra.dependent_rra_idx in
        let deviation = current_seasonal (not (ltb i s)) dev in
        (p : D) × Predicts f ps i hw s j deviation p
        × Judged rra (scratch_val k before) p deviation violation
    pub shows : Shows rra.window_len after.violations (violation ∷ history)
    pub failure :
        rra.failure_threshold ≤ total (take rra.window_len (violation ∷ history))
        → scratch_val k after ≡ d.of_nat 1
    pub no_failure :
        total (take rra.window_len (violation ∷ history)) < rra.failure_threshold
        → scratch_val k after ≡ d.of_nat 0

  -- If the violations of an entry are the newest `window_len` of a history, for a window of 1 to
  -- 2 ^ 16 - 1 places, `update_failures`, where it finds the entries that it uses, adds one reading
  -- to the history. It is a violation exactly if the deviation is known and the observed value is
  -- unknown or outside the band around the prediction from the coefficients that are found. The
  -- value is 1 if the newest `window_len` readings have at least `failure_threshold` violations,
  -- and else 0.
  pub update_failures-Decided :
      (f : HwFunctions D) (ps : List (Pending D)) (i j : ℕ) (k : ScratchIdx) (rra : Rra D)
      (c : Cdp D) (history : List ℕ) {out : List (Pending D)}
      → get_rra ps i ≡ some rra
      → get_cdp ps i j ≡ some c
      → 0 < rra.window_len
      → rra.window_len < 2 ^ 16
      → Shows rra.window_len c.violations history
      → update_failures f ps i j k ≡ some out
      → (after : Cdp D) × (get_cdp out i j ≡ some after) × Decided f ps i j rra k c history after
  unfolding update_failures
  update_failures-Decided f ps i j k rra c history {out} e0 e5 pos small shows h =
      let h1 = rw e0 at h in
      >>=-elim (get_rra ps rra.dependent_rra_idx) _ h1 λ dev_rra e1 h2.
        >>=-elim (get_rra ps dev_rra.dependent_rra_idx) _ h2 λ hw_rra e2 h3.
          >>=-elim (get_cdp ps rra.dependent_rra_idx j) _ h3 λ dev e3 h4.
            let h5 = rw e5 at h4 in
            >>=-elim (find_violation f ps rra i _ _ j _ _) _ h5 λ v e6 h6.
              let bit = find_violation-IsBit f ps rra i _ _ j _ _ e6 in
              let (vs, ran, shows') =
                record_violation-Shows rra.window_len c.violations history v pos small bit shows in
              let h7 = rw ran at h6 in
              let value =
                failure_value (total (take rra.window_len (v ∷ history))) rra.failure_threshold in
              let c' : Cdp D = record c { violations = vs } in
              (
                put_scratch k value c',
                subst (λ ps'. get_cdp ps' i j ≡ some (put_scratch k value c')) (some_inj h7)
                    (get_cdp-put_cdp ps i j (put_scratch k value c') e5),
                record {
                  dev_rra = dev_rra;
                  hw_rra = hw_rra;
                  dev = dev;
                  violation = v;
                  bit = bit;
                  dev_there = e1;
                  hw_there = e2;
                  dev_found = e3;
                  judged = find_violation-Judged f ps rra i _ _ j _ _ e6;
                  shows =
                      subst (λ l. Shows rra.window_len l (v ∷ history))
                        (sym (violations-put k value c')) shows';
                  failure = λ most. scratch_val-put k value c' ∙ ground (arith, most);
                  no_failure = λ few. scratch_val-put k value c' ∙ ground (arith, few);
                },
              )
