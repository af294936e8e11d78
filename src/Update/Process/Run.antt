-- ===== src/Update/Process/Run.antt =====
-- `process_arg`, whatever it is given: what a successful update has done to the database.
use rrdtool_1_x.Prelude.{
  ℕ, suc, ◌+◌, ◌/◌, ◌^◌, ◌≤◌, ◌<◌, ◌≡◌, refl, sym, ap, ◌∙◌, inl, inr, Option, none, some, List, [],
  ◌∷◌, arith, ◌==◌, length, word, Bool-cases, Option-cases, >>=-elim, some_inj,
}
use mathlib.Core.Path.{subst}
use rrdtool_1_x.Prelude.Double.{Double}
use rrdtool_1_x.Format.{DataSource, Rrd}
use rrdtool_1_x.Update.Steps.{calculate_elapsed_steps}
use rrdtool_1_x.Update.Steps.Count.{elapsed_pdp_st_lem}
use rrdtool_1_x.Update.Pdp.{simple_update}
use rrdtool_1_x.Update.Values.{update_pdp_prep}
use rrdtool_1_x.Update.Values.Kept.{update_pdp_prep-length}
use rrdtool_1_x.Update.Reading.{
  Outside, Time, bad_time, illegal_time, at_time, cut_time, place, parse_ds,
}
use rrdtool_1_x.Update.Reading.Order.{IsLater, get_time_from_reading-IsLater}
use rrdtool_1_x.Update.Process.{
  State, Work, advance, interval_since, process_values, process_parsed, process_arg, updated,
  failed, illegal, outcome,
}
use rrdtool_1_x.Update.Process.Safe.{IsConsistent, Advanced, close_all-Advanced}

simple_update-length :
    {D : Type 0} ⦃d : Double D⦄ (interval : D) (sources : List (DataSource D)) (pdp_new : List D)
    → length (simple_update interval sources pdp_new) ≡ length sources
unfolding simple_update
simple_update-length interval (s ∷ sources) (v ∷ pdp_new) =
    ap suc (simple_update-length interval sources pdp_new)
simple_update-length interval [] [] = refl
simple_update-length interval [] (v ∷ pdp_new) = refl
simple_update-length interval (s ∷ sources) [] = refl

later-le : {sec usec up up_usec : ℕ} → IsLater sec usec up up_usec → up ≤ sec
later-le (inl h) = omega arith
later-le (inr (e, h)) = omega arith

module _ {D : Type 0} where
  failed_updated : {st : State D} → ¬ (failed ≡ updated st)
  failed_updated h = cc

  illegal_updated : {st : State D} → ¬ (illegal ≡ updated st)
  illegal_updated h = cc

  updated_inj : {a b : State D} → updated a ≡ updated b → a ≡ b
  updated_inj h = cc

module _ {D : Type 0} ⦃d : Double D⦄ (compute : DataSource D → List D → ℕ → Option D)
    (outside : Outside D) (ds size : ℕ) where
  with_sources :
      (st : State D) (sources : List (DataSource D))
      → length sources ≡ length st.rrd.sources
      → IsConsistent ds size st
      → IsConsistent ds size (record st { rrd = record st.rrd { sources = sources } })
  with_sources st sources same ok = record {
    each_source = same ∙ ok.each_source;
    well_formed = ok.well_formed;
    extent_known = ok.extent_known;
    room = ok.room;
  }

  advance-Advanced :
      (w : Work D) (post_int : D) (now : ℕ) (st : State D) {st' : State D}
      → IsConsistent ds size st
      → w.elapsed_pdp_st + 1 < word
      → advance compute w post_int now st ≡ some st'
      → Advanced compute ds size st st'
  unfolding advance
  advance-Advanced w post_int now st {st'} ok fits h = elim (Bool-cases (w.elapsed_pdp_st == 0)) [
    | inl e ↦
        let sources = simple_update w.interval st.rrd.sources w.pdp_new in
        subst (Advanced compute ds size st) (some_inj (rw e at h)) (record {
          consistent =
              with_sources st sources (simple_update-length w.interval st.rrd.sources w.pdp_new) ok;
          confined = (refl, λ i o. refl);
          same_step = refl;
          same_layout = refl;
        })
    | inr e ↦ close_all-Advanced compute ds size w post_int now st ok fits (rw e at h)
  ]

  few_steps :
      (rrd : Rrd D) (sec usec : ℕ)
      → 0 < rrd.pdp_step
      → rrd.last_up ≤ sec
      → sec < word
      → sec / rrd.pdp_step < 2 ^ 31
      → (calculate_elapsed_steps rrd sec usec (interval_since rrd sec usec)).elapsed_pdp_st + 1
        < word
  few_steps rrd sec usec pos later fits small =
      let (count, _, _) =
        elapsed_pdp_st_lem rrd sec usec (interval_since rrd sec usec) pos later fits
          (omega arith) in
      omega (arith, count)

  -- what a successful update has done
  pub record IsUpdate (st st' : State D) : Type 0 where
    pub advanced : Advanced compute ds size st st'
    pub later : IsLater st'.rrd.last_up st'.rrd.last_up_usec st.rrd.last_up st.rrd.last_up_usec

  process_values-time :
      (st : State D) (sec usec : ℕ) (updvals : List (List ℕ)) {st' : State D}
      → process_values compute outside st sec usec updvals ≡ some st'
      → (st'.rrd.last_up ≡ sec) × (st'.rrd.last_up_usec ≡ usec)
  unfolding process_values
  process_values-time st sec usec updvals h =
      >>=-elim (update_pdp_prep outside.strtodbl st.rrd.sources updvals _) _ h λ first e h1.
        >>=-elim (advance compute _ _ sec _) _ h1 λ mid e' h2.
          let after = sym (some_inj h2) in
          (ap (λ t. t.rrd.last_up) after, ap (λ t. t.rrd.last_up_usec) after)

  process_values-Advanced :
      (st : State D) (sec usec : ℕ) (updvals : List (List ℕ)) {st' : State D}
      → IsConsistent ds size st
      → (calculate_elapsed_steps st.rrd sec usec (interval_since st.rrd sec usec)).elapsed_pdp_st
          + 1
        < word
      → process_values compute outside st sec usec updvals ≡ some st'
      → Advanced compute ds size st st'
  unfolding process_values
  process_values-Advanced st sec usec updvals {st'} ok fits h =
      let interval = interval_since st.rrd sec usec in
      >>=-elim (update_pdp_prep outside.strtodbl st.rrd.sources updvals interval) _ h λ first e h1.
        let ready : State D = record st { rrd = record st.rrd { sources = first.0 } } in
        let same = update_pdp_prep-length outside.strtodbl st.rrd.sources updvals interval e in
        >>=-elim (advance compute _ _ sec ready) _ h1 λ mid e' h2.
          let done = advance-Advanced _ _ sec ready (with_sources st first.0 same ok) fits e' in
          subst (Advanced compute ds size st) (some_inj h2) (record {
            consistent = record {
              each_source = done.consistent.each_source;
              well_formed = done.consistent.well_formed;
              extent_known = done.consistent.extent_known;
              room = done.consistent.room;
            };
            confined = done.confined;
            same_step = done.same_step;
            same_layout = done.same_layout;
          })

  parse_ds-time :
      (rrd : Rrd D) (tmpl_idx input : List ℕ) (version sec usec : ℕ) (updvals : List (List ℕ))
      → parse_ds outside rrd tmpl_idx input version ≡ some (at_time sec usec, updvals)
      → IsLater sec usec rrd.last_up rrd.last_up_usec
  unfolding parse_ds
  parse_ds-time rrd tmpl_idx input version sec usec updvals h =
      >>=-elim (cut_time outside input) _ h λ parts _ h1.
        >>=-elim (place tmpl_idx _ _) _ h1 λ vs _ h2.
          (get_time_from_reading-IsLater outside rrd parts.0 parts.1.0 version
            (ap (λ t. t.0) (some_inj h2))).0

  at_last :
      (st : State D) (sec usec : ℕ) (updvals : List (List ℕ)) {st' : State D}
      → IsConsistent ds size st
      → 0 < st.rrd.pdp_step
      → st'.rrd.last_up < word
      → st'.rrd.last_up / st.rrd.pdp_step < 2 ^ 31
      → IsLater sec usec st.rrd.last_up st.rrd.last_up_usec
      → outcome (process_values compute outside st sec usec updvals) ≡ updated st'
      → IsUpdate st st'
  at_last st sec usec updvals {st'} ok pos fits small later h =
      elim (Option-cases (process_values compute outside st sec usec updvals)) [
        | inl e ↦ absurd (failed_updated (rw e at h))
        | inr (mid, e) ↦
            let ran : process_values compute outside st sec usec updvals ≡ some st' =
              e ∙ ap some (updated_inj (rw e at h)) in
            let (now, micro) = process_values-time st sec usec updvals ran in
            let few =
              few_steps st.rrd sec usec pos (later-le later) (subst (λ k. k < word) now fits)
                (subst (λ k. k / st.rrd.pdp_step < 2 ^ 31) now small) in
            record {
              advanced = process_values-Advanced st sec usec updvals ok few ran;
              later = rw (now, micro) later;
            }
      ]

  on_parsed :
      (st : State D) (o : Option (Time × List (List ℕ))) (tmpl_idx step_start : List ℕ)
      (version : ℕ) {st' : State D}
      → IsConsistent ds size st
      → 0 < st.rrd.pdp_step
      → st'.rrd.last_up < word
      → st'.rrd.last_up / st.rrd.pdp_step < 2 ^ 31
      → parse_ds outside st.rrd tmpl_idx step_start version ≡ o
      → process_parsed compute outside st o ≡ updated st'
      → IsUpdate st st'
  unfolding process_parsed
  on_parsed st none tmpl_idx step_start version ok pos fits small e h = absurd (failed_updated h)
  on_parsed st (some (bad_time, updvals)) tmpl_idx step_start version ok pos fits small e h =
      absurd (failed_updated h)
  on_parsed st (some (illegal_time, updvals)) tmpl_idx step_start version ok pos fits small e h =
      absurd (illegal_updated h)
  on_parsed st (some (at_time sec usec, updvals)) tmpl_idx step_start version ok pos fits small e
        h =
      at_last st sec usec updvals ok pos fits small
        (parse_ds-time st.rrd tmpl_idx step_start version sec usec updvals e) h

  -- A successful `process_arg` on a consistent database with a step above 0, its predictions
  -- included, leaves it consistent, with every row pointer inside its archive and the step, the
  -- number of rows of each archive and the PDPs of a row unchanged; it changes no value outside the archives; and its time is later than that of the
  -- update before. The new time is below 2 ^ 64 and below 2 ^ 31 steps.
  pub process_arg_lem :
      (st : State D) (tmpl_idx step_start : List ℕ) (version : ℕ) {st' : State D}
      → IsConsistent ds size st
      → 0 < st.rrd.pdp_step
      → st'.rrd.last_up < word
      → st'.rrd.last_up / st.rrd.pdp_step < 2 ^ 31
      → process_arg compute outside st tmpl_idx step_start version ≡ updated st'
      → IsUpdate st st'
  unfolding process_arg
  process_arg_lem st tmpl_idx step_start version ok pos fits small h =
      on_parsed st (parse_ds outside st.rrd tmpl_idx step_start version) tmpl_idx step_start version
        ok pos fits small refl h
