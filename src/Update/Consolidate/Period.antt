-- ===== src/Update/Consolidate/Period.antt =====
-- `update_cdp` against a reference: a row of an archive is the consolidation of the PDPs of its
-- period, taken all at once.
use rrdtool_1_x.Prelude.{
  ℕ, suc, ◌+◌, ◌-◌, ◌/◌, ◌%◌, ◌≤◌, ◌<◌, ◌≡◌, refl, ap, sym, ◌∙◌, true, false, inl, inr, List, [],
  ◌∷◌, ◌++◌, arith, if◌then◌else◌, Bool-cases, sub_u64, add_u64_fits, sub_u64_fits, word, length,
  lt→leb_false, All,
}
use mathlib.Core.Path.{subst}
use native.Mathlib.Nat.{zero-div, mod-eq_of_lt, mod-add-div', add-mul-mod_self_right}
use rrdtool_1_x.Prelude.Double.{Double}
use rrdtool_1_x.Format.{Cf, Cdp}
use rrdtool_1_x.Update.Steps.{start_pdp_offset, rra_step_cnt}
use rrdtool_1_x.Update.Consolidate.{
  carry_unknown, initialize_carry_over, calculate_cdp_val, close_row, extend_row, update_cdp,
}

module _ {D : Type 0} ⦃d : Double D⦄ where
  open d use {nan, inf, of_nat, neg, add, mul, div, lt, is_nan}

  -- how many values of a list are unknown
  abbrev pub unknowns : List D → ℕ
  unknowns [] = 0
  unknowns (v ∷ vs) = (if is_nan v then 1 else 0) + unknowns vs

  -- a fold over the known values
  abbrev pub fold_known : (D → D → D) → D → List D → D
  fold_known f a [] = a
  fold_known f a (v ∷ vs) = fold_known f (if is_nan v then a else f a v) vs

  pub fold_known-append :
      (f : D → D → D) (a : D) (vs : List D) (v : D)
      → fold_known f a (vs ++ v ∷ [])
        ≡ (if is_nan v then fold_known f a vs else f (fold_known f a vs) v)
  fold_known-append f a [] v = refl
  fold_known-append f a (w ∷ vs) v = fold_known-append f (if is_nan w then a else f a w) vs v

  pub unknowns-append :
      (vs : List D) (v : D) → unknowns (vs ++ v ∷ []) ≡ unknowns vs + (if is_nan v then 1 else 0)
  unknowns-append [] v = omega arith
  unknowns-append (w ∷ vs) v = omega (arith, unknowns-append vs v)

  pub unknowns-le : (vs : List D) → unknowns vs ≤ length vs
  unknowns-le [] = omega arith
  unknowns-le (w ∷ vs) = ground (arith, unknowns-le vs)

  abbrev pub greater : D → D → D
  greater a v = if lt a v then v else a

  abbrev pub smaller : D → D → D
  smaller a v = if lt v a then v else a

  -- one PDP at a time, from PDP number `proc` on
  unfoldable pub step_pdp : Cf → ℕ → ℕ → D → ℕ → D → Cdp D → Cdp D
  step_pdp cf pdp_cnt row_cnt xff proc v c =
      let start = start_pdp_offset pdp_cnt proc in
      update_cdp c cf v (rra_step_cnt 1 start pdp_cnt row_cnt) 1 start pdp_cnt xff

  unfoldable pub feed : Cf → ℕ → ℕ → D → ℕ → List D → Cdp D → Cdp D
  feed cf pdp_cnt row_cnt xff proc [] c = c
  feed cf pdp_cnt row_cnt xff proc (v ∷ vs) c =
      feed cf pdp_cnt row_cnt xff (suc proc) vs (step_pdp cf pdp_cnt row_cnt xff proc v c)

  -- no PDP of the open row seen yet
  pub record IsFresh (cf : Cf) (c : Cdp D) : Type 0 where
    pub val_empty : c.val ≡ carry_unknown cf
    pub none_unknown : c.unkn_pdp_cnt ≡ 0

  module _ (cf : Cf) (n row_cnt : ℕ) (xff : D) (big : 1 < n) (fits : n < word)
      (rows : 0 < row_cnt) where
    open_step :
        (proc : ℕ) (v : D) (c : Cdp D)
        → proc % n + 1 < n
        → step_pdp cf n row_cnt xff proc v c ≡ extend_row c cf v 1
    unfolding step_pdp update_cdp start_pdp_offset rra_step_cnt
    open_step proc v c h =
        rw (sub_u64_fits n (proc % n) (omega arith) fits)
          (rw (lt→leb_false (n - proc % n) 1 (omega arith)) refl)

    closing_step :
        (proc : ℕ) (v : D) (c : Cdp D)
        → proc % n + 1 ≡ n
        → step_pdp cf n row_cnt xff proc v c ≡ close_row c cf v 1 1 n xff
    unfolding step_pdp update_cdp start_pdp_offset rra_step_cnt
    closing_step proc v c h =
        let one : n - proc % n ≡ 1 = omega arith in
        rw (sub_u64_fits n (proc % n) (omega arith) fits) (
          rw one (
            rw (sub_u64_fits 1 1 (omega arith) (omega arith), zero-div n)
              (rw (add_u64_fits 0 1 (omega arith)) (ground arith))))

    -- the last PDP of the period leaves the row fresh
    pub close_row-IsFresh : (v : D) (c : Cdp D) → IsFresh cf (close_row c cf v 1 1 n xff)
    unfolding close_row initialize_carry_over
    close_row-IsFresh v c =
        let nothing : sub_u64 1 1 % n ≡ 0 =
          rw (sub_u64_fits 1 1 (omega arith) (omega arith)) (mod-eq_of_lt (omega arith)) in
        record {
          val_empty = rw nothing refl;
          none_unknown = elim (Bool-cases (is_nan v)) [ inl e ↦ rw e nothing | inr e ↦ rw e refl ];
        }

    extend_unknown :
        (v : D) (c : Cdp D)
        → is_nan v ≡ true
        → c.unkn_pdp_cnt + 1 < word
        → extend_row c cf v 1 ≡ record c { unkn_pdp_cnt = c.unkn_pdp_cnt + 1 }
    unfolding extend_row
    extend_unknown v c e h = rw (e, add_u64_fits c.unkn_pdp_cnt 1 h) refl

    extend_known :
        (v : D) (c : Cdp D)
        → is_nan v ≡ false
        → extend_row c cf v 1 ≡ record c { val = calculate_cdp_val c.val v 1 cf }
    unfolding extend_row
    extend_known v c e = rw e refl

    next_place : (proc : ℕ) → proc % n + 1 < n → suc proc % n ≡ proc % n + 1
    next_place proc h =
        ap (λ k. k % n) (omega (arith, mod-add-div' proc n))
        ∙ add-mul-mod_self_right (proc % n + 1) (proc / n) n
        ∙ mod-eq_of_lt h

    feed-append :
        (proc : ℕ) (vs : List D) (v : D) (c : Cdp D)
        → feed cf n row_cnt xff proc (vs ++ v ∷ []) c
          ≡ step_pdp cf n row_cnt xff (proc + length vs) v (feed cf n row_cnt xff proc vs c)
    unfolding feed
    feed-append proc [] v c = ap (λ k. step_pdp cf n row_cnt xff k v c) (omega arith)
    feed-append proc (w ∷ vs) v c =
        feed-append (suc proc) vs v (step_pdp cf n row_cnt xff proc w c)
        ∙ ap
            (λ k.
              step_pdp cf n row_cnt xff k v
                (feed cf n row_cnt xff (suc proc) vs (step_pdp cf n row_cnt xff proc w c)))
            (omega arith)

    place-add : (proc l : ℕ) → proc % n ≡ 0 → l < n → (proc + l) % n ≡ l
    place-add proc l h k =
        ap (λ m. m % n) (omega (arith, mod-add-div' proc n))
        ∙ add-mul-mod_self_right l (proc / n) n
        ∙ mod-eq_of_lt k

    -- what an open row keeps of the PDPs that it has seen
    module _ (f : D → D → D) (Good : D → Type 0) (Sum : D → Type 0)
        (calc : (a v : D)
          → Sum a
          → Good v
          → is_nan v ≡ false
          → (calculate_cdp_val a v 1 cf ≡ f a v) × Sum (f a v)) where
      prefix :
          (proc : ℕ) (vs : List D) (c : Cdp D)
          → All Good vs
          → Sum c.val
          → proc % n + length vs < n
          → c.unkn_pdp_cnt + length vs < word
          → let c' = feed cf n row_cnt xff proc vs c in
            (c'.val ≡ fold_known f c.val vs)
            × (c'.unkn_pdp_cnt ≡ c.unkn_pdp_cnt + unknowns vs)
            × Sum c'.val
      unfolding feed
      prefix proc [] c g s h b = (refl, omega arith, s)
      prefix proc (v ∷ vs) c g s h b =
          let next = next_place proc (omega arith) in
          rw (feed, open_step proc v c (omega arith))
            elim (Bool-cases (is_nan v)) [
              | inl e ↦
                  rw (e, extend_unknown v c e (omega arith))
                    let c1 : Cdp D = record c { unkn_pdp_cnt = c.unkn_pdp_cnt + 1 } in
                      let (p, q, r) =
                        prefix (suc proc) vs c1 g.1 s (omega (arith, next)) (omega arith) in
                      (p, omega (arith, q), r)
              | inr e ↦
                  let (same, sum) = calc c.val v s g.0 e in
                  rw (e, extend_known v c e, same)
                    let c1 : Cdp D = record c { val = f c.val v } in
                      let (p, q, r) =
                        prefix (suc proc) vs c1 g.1 sum (omega (arith, next)) (omega arith) in
                      (p, omega (arith, q), r)
            ]

      -- The whole period, `vs` and then `v`: what the closing step starts from.
      pub whole :
          (proc : ℕ) (vs : List D) (v : D) (c : Cdp D)
          → All Good vs
          → IsFresh cf c
          → Sum (carry_unknown cf)
          → proc % n ≡ 0
          → length vs + 1 ≡ n
          → (c1 : Cdp D) × (feed cf n row_cnt xff proc (vs ++ v ∷ []) c
              ≡ close_row c1 cf v 1 1 n xff)
            × (c1.val ≡ fold_known f (carry_unknown cf) vs)
            × (c1.unkn_pdp_cnt ≡ unknowns vs)
            × Sum c1.val
      whole proc vs v c g fresh s start len =
          let s' : Sum c.val = subst Sum (sym fresh.val_empty) s in
          let zero_unknown = fresh.none_unknown in
          let (p, q, r) = prefix proc vs c g s' (omega arith) (omega arith) in
          let place : (proc + length vs) % n ≡ length vs =
            place-add proc (length vs) start (omega arith) in
          (
            feed cf n row_cnt xff proc vs c,
            feed-append proc vs v c ∙ closing_step (proc + length vs) v _ (omega arith),
            p ∙ ap (λ a. fold_known f a vs) fresh.val_empty,
            omega arith,
            r,
          )
