-- ===== src/Update/Values/Kept.antt =====
-- What `update_pdp_prep` changes of the data sources: the last reading only.
use rrdtool_1_x.Prelude.{
  ℕ, suc, ◌≡◌, refl, ap, ◌∙◌, sym, inl, inr, ◌&&◌, not, Option, some, List, [], ◌∷◌, if◌then◌else◌,
  length, codes, Bool-cases, >>=-elim, some_pair-first,
}
use rrdtool_1_x.Prelude.Double.{Double}
use rrdtool_1_x.Format.{dst_conv, DataSource}
use rrdtool_1_x.Update.Pdp.{is_computed}
use rrdtool_1_x.Update.Values.{
  is_unknown, copied, at_least, interpret, prepare_pdp, update_pdp_prep,
}

module _ {D : Type 0} ⦃d : Double D⦄ (strtodbl : List ℕ → Option D) where
  -- each source with its reading for the next difference, cut at 29 bytes
  abbrev pub remembered : List (DataSource D) → List (List ℕ) → List (DataSource D)
  remembered (s ∷ sources) (value ∷ updvals) =
      record s { last_ds = copied value } ∷ remembered sources updvals
  remembered sources _ = sources

  prepare_pdp-remembers :
      (s : DataSource D) (value : List ℕ) (interval : D) {s' : DataSource D} {v : D}
      → prepare_pdp strtodbl s value interval ≡ some (s', v)
      → s' ≡ record s { last_ds = copied value }
  unfolding prepare_pdp
  prepare_pdp-remembers s value interval h =
      let last_ds = if d.lt (d.of_nat s.mrhb_cnt) interval then codes "U" else s.last_ds in
      elim (Bool-cases (
        not (is_unknown value)
        && (not (is_computed (dst_conv s.dst)) && at_least (d.of_nat s.mrhb_cnt) interval))) [
          | inl e ↦
              let h' = rw e at h in
              >>=-elim (dst_conv s.dst) _ h' λ dst _ h1.
                >>=-elim (interpret strtodbl dst value last_ds interval) _ h1
                  λ reading _ h2. sym (some_pair-first h2)
          | inr e ↦ sym (some_pair-first (rw e at h))
        ]

  -- Where `update_pdp_prep` succeeds, it has replaced each `last_ds` by its reading, cut at 29
  -- bytes, whatever the types and limits, and has left all else of the data sources alone.
  pub update_pdp_prep-remembers :
      (sources : List (DataSource D)) (updvals : List (List ℕ)) (interval : D)
      {out : List (DataSource D)} {pdp_new : List D}
      → update_pdp_prep strtodbl sources updvals interval ≡ some (out, pdp_new)
      → out ≡ remembered sources updvals
  unfolding update_pdp_prep
  update_pdp_prep-remembers (s ∷ sources) (value ∷ updvals) interval h =
      >>=-elim (prepare_pdp strtodbl s value interval) _ h λ first e h1.
        >>=-elim (update_pdp_prep strtodbl sources updvals interval) _ h1 λ rest e' h2.
          let here : first.0 ≡ record s { last_ds = copied value } =
            prepare_pdp-remembers s value interval e in
          let there : rest.0 ≡ remembered sources updvals =
            update_pdp_prep-remembers sources updvals interval e' in
          sym (some_pair-first h2)
          ∙ ap (λ t. t ∷ rest.0) here
          ∙ ap (λ t. record s { last_ds = copied value } ∷ t) there
  update_pdp_prep-remembers [] [] interval h = sym (some_pair-first h)
  update_pdp_prep-remembers [] (v ∷ updvals) interval h = sym (some_pair-first h)
  update_pdp_prep-remembers (s ∷ sources) [] interval h = sym (some_pair-first h)

  remembered-length :
      (sources : List (DataSource D)) (updvals : List (List ℕ))
      → length (remembered sources updvals) ≡ length sources
  remembered-length (s ∷ sources) (value ∷ updvals) = ap suc (remembered-length sources updvals)
  remembered-length [] [] = refl
  remembered-length [] (v ∷ updvals) = refl
  remembered-length (s ∷ sources) [] = refl

  pub update_pdp_prep-length :
      (sources : List (DataSource D)) (updvals : List (List ℕ)) (interval : D)
      {out : List (DataSource D)} {pdp_new : List D}
      → update_pdp_prep strtodbl sources updvals interval ≡ some (out, pdp_new)
      → length out ≡ length sources
  update_pdp_prep-length sources updvals interval h =
      ap length (update_pdp_prep-remembers sources updvals interval h)
      ∙ remembered-length sources updvals
