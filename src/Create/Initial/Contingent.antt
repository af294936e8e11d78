-- ===== src/Create/Initial/Contingent.antt =====
-- The archives that `create_hw_contingent_rras` makes, and what the smoother does with them.
use rrdtool_1_x.Prelude.{
  ℕ, suc, ◌+◌, ◌≤◌, ◌≡◌, refl, ap, ◌∙◌, some, List, [], ◌∷◌, ◌++◌, arith, le→leb, length, get_elem?,
}
use rrdtool_1_x.Prelude.Double.{Double}
use rrdtool_1_x.Format.{Rra}
use rrdtool_1_x.Store.{File}
use rrdtool_1_x.Hw.Smooth.{smooth_offset, apply_smoother}
use rrdtool_1_x.Create.Initial.{contingent_rras, create_hw_contingent_rras}

get_elem?-append_right :
    {A : Type 0} (xs ys : List A) (k : ℕ) → get_elem? (xs ++ ys) (length xs + k) ≡ get_elem? ys k
get_elem?-append_right [] ys k = ap (get_elem? ys) (omega arith)
get_elem?-append_right (x ∷ xs) ys k =
    let next : suc (length xs) + k ≡ suc (length xs + k) = omega arith in
    ap (get_elem? (x ∷ (xs ++ ys))) next ∙ get_elem?-append_right xs ys k

module _ {D : Type 0} ⦃d : Double D⦄ (rras : List (Rra D)) (hw_rra : Rra D) (period hash : ℕ) where
  abbrev all_rras : List (Rra D)
  all_rras = create_hw_contingent_rras rras hw_rra period hash

  at_place :
      (k : ℕ)
      → get_elem? all_rras (length rras + k)
        ≡ get_elem?
            (record hw_rra { dependent_rra_idx = length rras + 1 }
              ∷ contingent_rras (length rras) hw_rra period hash)
            k
  unfolding create_hw_contingent_rras
  at_place k =
      get_elem?-append_right rras
        (record hw_rra { dependent_rra_idx = length rras + 1 }
          ∷ contingent_rras (length rras) hw_rra period hash)
        k

  module _ (malloc : ℕ → List D) (version row_length rra_start : ℕ) (f : File D)
      (recent : 4 ≤ version) (halved : d.div (d.of_nat 0) (d.of_nat 2) ≡ d.of_nat 0)
      (times : (n : ℕ) → d.mul (d.of_nat 0) (d.of_nat n) ≡ d.of_nat 0)
      (floored : d.floor (d.of_nat 0) ≡ d.of_nat 0) (converted : d.to_nat (d.of_nat 0) ≡ 0) where
    no_window :
        (i : ℕ) (rra : Rra D)
        → get_elem? all_rras i ≡ some rra
        → rra.hw_beta ≡ d.of_nat 0
        → apply_smoother malloc version all_rras i row_length rra_start f ≡ some (all_rras, f)
    unfolding apply_smoother smooth_offset
    no_window i rra found none_given =
        rw
          (
            found,
            le→leb 4 version recent,
            none_given,
            halved,
            times rra.row_cnt,
            floored,
            converted,
          )
          refl

    -- From version 4 on the smoother does nothing with the seasons and the deviations that are made
    -- with no smoothing window of their own: the window is 0, and not the 0.05 of an archive that is
    -- asked for by name. Of the doubles this takes that 0 / 2 is 0, that 0 times an integer is 0, and
    -- that 0 is rounded down and converted to 0.
    pub contingent_rras-unsmoothed :
        (apply_smoother malloc version all_rras (length rras + 1) row_length rra_start f
          ≡ some (all_rras, f))
        × (apply_smoother malloc version all_rras (length rras + 2) row_length rra_start f
            ≡ some (all_rras, f))
    unfolding contingent_rras
    contingent_rras-unsmoothed = (
      no_window (length rras + 1) _ (at_place 1) refl,
      no_window (length rras + 2) _ (at_place 2) refl,
    )
