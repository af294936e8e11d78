-- ===== src/Update/Prepare/Schedule.antt =====
-- The smoothing schedule of `do_schedule_smooth`, after the burn-in.
use rrdtool_1_x.Prelude.{
  ℕ, ◌+◌, ◌-◌, ◌%◌, ◌^◌, ◌≤◌, ◌<◌, ◌≡◌, ◌∙◌, ◌⊎◌, inl, inr, true, List, [], ◌∷◌, arith, leb, All,
  add_u64_fits, le→leb,
}
use native.Mathlib.Nat.{mod-eq_of_lt, mod-eq-sub-mod}
use native.Mathlib.Decide.{dec_lt}
use rrdtool_1_x.Format.{Rra}
use rrdtool_1_x.Update.Write.Ring.{steps_to, steps_to_pos, at_row}
use rrdtool_1_x.Update.Prepare.{smooth_due}

abbrev pub elapsed_in : List ℕ → ℕ
elapsed_in [] = 0
elapsed_in (e ∷ es) = e + elapsed_in es

abbrev pub FewSteps : ℕ → Type 0
FewSteps e = e < 2 ^ 63

steps_to-moved :
    (n cur idx e : ℕ)
    → cur < n
    → idx < n
    → e < steps_to n cur idx
    → ((cur + e) % n < n) × (steps_to n ((cur + e) % n) idx ≡ steps_to n cur idx - e)
steps_to-moved n cur idx e h k l = elim (dec_lt (cur + e) n) [
  | yes p ↦ rw (mod-eq_of_lt p) (ground arith)
  | no p ↦
      let back : (cur + e) % n ≡ cur + e - n =
        mod-eq-sub-mod (omega arith) ∙ mod-eq_of_lt (ground arith) in
      rw back (ground arith)
]

module _ {D : Type 0} where
  -- After the burn-in a smoothing is due exactly if the row pointer, moving on by the elapsed steps
  -- round the ring, comes to the row of `seasonal_smooth_idx`. Pointer and row lie inside the archive,
  -- and neither the steps nor the rows reach 2 ^ 63.
  pub smooth_due_lem :
      (rra : Rra D) (e : ℕ)
      → rra.cur_row < rra.row_cnt
      → rra.seasonal_smooth_idx < rra.row_cnt
      → rra.row_cnt < 2 ^ 63
      → e < 2 ^ 63
      → smooth_due rra e ≡ leb (steps_to rra.row_cnt rra.cur_row rra.seasonal_smooth_idx) e
  unfolding smooth_due
  smooth_due_lem rra e h k l m =
      let here = add_u64_fits rra.cur_row e (omega arith) in
      let next = add_u64_fits rra.row_cnt rra.seasonal_smooth_idx (omega arith) in
      ground (arith, here, next)

  abbrev pub moved_on : Rra D → ℕ → Rra D
  moved_on rra e = at_row rra ((rra.cur_row + e) % rra.row_cnt)

  -- a smoothing is due at one of the updates, whose elapsed steps are listed
  abbrev pub DueWithin : Rra D → List ℕ → Type 0
  DueWithin rra [] = ⊥
  DueWithin rra (e ∷ es) = (smooth_due rra e ≡ true) ⊎ DueWithin (moved_on rra e) es

  -- After the burn-in a smoothing is due within any updates whose elapsed steps come to the number of
  -- rows, one seasonal cycle. Pointer and row lie inside the archive, and neither the steps of an
  -- update nor the rows reach 2 ^ 63.
  pub DueWithin-cycle :
      (rra : Rra D) (es : List ℕ)
      → rra.cur_row < rra.row_cnt
      → rra.seasonal_smooth_idx < rra.row_cnt
      → rra.row_cnt < 2 ^ 63
      → All FewSteps es
      → rra.row_cnt ≤ elapsed_in es
      → DueWithin rra es
  DueWithin-cycle rra es h k l m enough =
      due_after rra es h k l m
        (omega (arith, enough, steps_to_pos rra.row_cnt rra.cur_row rra.seasonal_smooth_idx h k))
    where
      due_after :
          (rra : Rra D) (es : List ℕ)
          → rra.cur_row < rra.row_cnt
          → rra.seasonal_smooth_idx < rra.row_cnt
          → rra.row_cnt < 2 ^ 63
          → All FewSteps es
          → steps_to rra.row_cnt rra.cur_row rra.seasonal_smooth_idx ≤ elapsed_in es
          → DueWithin rra es
      due_after rra [] h k l m enough =
          let pos = steps_to_pos rra.row_cnt rra.cur_row rra.seasonal_smooth_idx h k in
          omega (arith, enough, pos)
      due_after rra (e ∷ es) h k l m enough =
          elim (dec_lt e (steps_to rra.row_cnt rra.cur_row rra.seasonal_smooth_idx)) [
            | no p ↦ inl (
                smooth_due_lem rra e h k l m.0
                ∙ le→leb (steps_to rra.row_cnt rra.cur_row rra.seasonal_smooth_idx) e (omega arith))
            | yes p ↦
                let (inside, less) =
                  steps_to-moved rra.row_cnt rra.cur_row rra.seasonal_smooth_idx e h k p in
                inr (due_after (moved_on rra e) es inside k l m.1 (omega (arith, less, enough)))
          ]
