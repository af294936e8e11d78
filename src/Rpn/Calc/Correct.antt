-- ===== src/Rpn/Calc/Correct.antt =====
-- An expression in postfix form against its value: `rpn_calc` computes what the tree means.
use rrdtool_1_x.Prelude.{
  ℕ, zero, suc, Bool, true, false, not, ◌||◌, if◌then◌else◌, arith, ◌≡◌, refl, sym, ap, ◌∙◌, Option,
  none, some, List, [], ◌∷◌, ◌++◌, length, some_inj,
}
use mathlib.Core.Path.{subst}
use mathlib.Core.List.{append_assoc, append-nil}
use rrdtool_1_x.Prelude.Int.{ℤ, pos, negsuc}
use rrdtool_1_x.Prelude.Double.{Double}
use rrdtool_1_x.Rpn.{
  Op, op_number, op_if, op_limit, Rpnp, Math, op_sin, op_cos, op_atan, op_log, op_exp, op_sqrt,
  op_ceil, op_floor, op_round, op_abs, op_rad2deg, op_deg2rad, op_un, op_isinf, op_add, op_sub,
  op_mul, op_div, op_mod, op_pow, op_atan2, op_addnan, op_lt, op_le, op_gt, op_ge, op_ne, op_eq,
  op_min, op_minnan, op_max, op_maxnan,
}
use rrdtool_1_x.Rpn.Compact.{blank}
use rrdtool_1_x.Rpn.Ranges.{ran}
use rrdtool_1_x.Rpn.Calc.{
  Call, grow, choose, within_limits, same, nan_or, known_or, unary_of, binary_of, apply_op, operate,
  rpn_step, rpn_loop, final_value, rpn_calc,
}

-- expressions of constants, data sources and operators
pub data Expr (D : Type 0) : Type 0 where
  number : D → Expr D
  source : ℕ → Expr D
  apply : Op → Expr D → Expr D
  combine : Op → Expr D → Expr D → Expr D
  if_else : Expr D → Expr D → Expr D → Expr D
  limited : Expr D → Expr D → Expr D → Expr D

abbrev not_zero : ℤ → Bool
not_zero (pos zero) = false
not_zero (pos (suc n)) = true
not_zero (negsuc n) = true

module _ {D : Type 0} ⦃d : Double D⦄ ⦃m : Math D⦄ where
  abbrev pub node : Op → Rpnp D
  node op = blank op

  -- postfix notation, with a node for each data source
  unfoldable pub postfix : (ℕ → Rpnp D) → Expr D → List (Rpnp D)
  postfix leaf (number v) = record (blank op_number) { val = v } ∷ []
  postfix leaf (source i) = leaf i ∷ []
  postfix leaf (apply op e) = postfix leaf e ++ (node op ∷ [])
  postfix leaf (combine op a b) = postfix leaf a ++ (postfix leaf b ++ (node op ∷ []))
  postfix leaf (if_else a b e) =
      postfix leaf a ++ (postfix leaf b ++ (postfix leaf e ++ (node op_if ∷ [])))
  postfix leaf (limited a b e) =
      postfix leaf a ++ (postfix leaf b ++ (postfix leaf e ++ (node op_limit ∷ [])))

  abbrev pub apply_to : Option (D → D) → Option D → Option D
  apply_to (some f) (some v) = some (f v)
  apply_to _ _ = none

  abbrev pub combine_to : Option (D → D → D) → Option D → Option D → Option D
  combine_to (some f) (some v) (some w) = some (f v w)
  combine_to _ _ _ = none

  abbrev pub join : (D → D → D → D) → Option D → Option D → Option D → Option D
  join f (some u) (some v) (some w) = some (f u v w)
  join f _ _ _ = none

  abbrev one_if : Bool → D
  one_if b = if b then d.of_nat 1 else d.of_nat 0

  -- the first unknown operand, and else `v`
  abbrev unless_unknown : D → D → D → D
  unless_unknown x y v = if d.is_nan x then x else if d.is_nan y then y else v

  -- the known operand if the other one is not, and else `v`
  abbrev where_known : D → D → D → D
  where_known x y v = if d.is_nan x then y else if d.is_nan y then x else v

  -- neither is unknown nor less than the other
  abbrev are_equal : D → D → Bool
  are_equal x y =
      if d.is_nan x || d.is_nan y then false else if d.lt x y || d.lt y x then false else true

  -- What the operators of one operand and of two mean (rrdgraph_rpn).
  unfoldable pub unary_meaning : Op → Option (D → D)
  unary_meaning op_sin = some (λ x. m.sin x)
  unary_meaning op_cos = some (λ x. m.cos x)
  unary_meaning op_atan = some (λ x. m.atan x)
  unary_meaning op_log = some (λ x. m.log x)
  unary_meaning op_exp = some (λ x. m.exp x)
  unary_meaning op_sqrt = some (λ x. m.sqrt x)
  unary_meaning op_ceil = some (λ x. m.ceil x)
  unary_meaning op_floor = some (λ x. d.floor x)
  unary_meaning op_round = some (λ x. m.round x)
  unary_meaning op_abs = some (λ x. if d.lt x (d.of_nat 0) then d.neg x else x)
  unary_meaning op_rad2deg = some (λ x. d.mul m.rad2deg x)
  unary_meaning op_deg2rad = some (λ x. d.mul m.deg2rad x)
  unary_meaning op_un = some (λ x. one_if (d.is_nan x))
  unary_meaning op_isinf = some (λ x. one_if (not_zero (m.isinf x)))
  unary_meaning _ = none

  unfoldable pub binary_meaning : Op → Option (D → D → D)
  binary_meaning op_add = some (λ x y. d.add x y)
  binary_meaning op_sub = some (λ x y. d.sub x y)
  binary_meaning op_mul = some (λ x y. d.mul x y)
  binary_meaning op_div = some (λ x y. d.div x y)
  binary_meaning op_mod = some (λ x y. m.fmod x y)
  binary_meaning op_pow = some (λ x y. m.pow x y)
  binary_meaning op_atan2 = some (λ x y. m.atan2 x y)
  binary_meaning op_addnan = some (λ x y. where_known x y (d.add x y))
  binary_meaning op_lt = some (λ x y. unless_unknown x y (one_if (d.lt x y)))
  binary_meaning op_le = some (λ x y. unless_unknown x y (one_if (not (d.lt y x))))
  binary_meaning op_gt = some (λ x y. unless_unknown x y (one_if (d.lt y x)))
  binary_meaning op_ge = some (λ x y. unless_unknown x y (one_if (not (d.lt x y))))
  binary_meaning op_ne = some (λ x y. unless_unknown x y (one_if (not (are_equal x y))))
  binary_meaning op_eq = some (λ x y. unless_unknown x y (one_if (are_equal x y)))
  binary_meaning op_min = some (λ x y. unless_unknown x y (if d.lt y x then y else x))
  binary_meaning op_minnan = some (λ x y. where_known x y (if d.lt y x then y else x))
  binary_meaning op_max = some (λ x y. unless_unknown x y (if d.lt x y then y else x))
  binary_meaning op_maxnan = some (λ x y. where_known x y (if d.lt x y then y else x))
  binary_meaning _ = none

  -- IF: an unknown condition is false, as is 0
  abbrev pub if_meaning : D → D → D → D
  if_meaning x y z = if d.is_nan x then z else if are_equal x (d.of_nat 0) then z else y

  -- LIMIT: unknown outside the limits, and where an operand is
  abbrev pub limit_meaning : D → D → D → D
  limit_meaning x y z =
      if d.is_nan x || (d.is_nan y || d.is_nan z)
      then (if d.is_nan x then x else if d.is_nan y then y else z)
      else if d.lt x y || d.lt z x
      then d.nan
      else x

  -- the value of the tree; `none` if an operator is not one of so many operands
  unfoldable pub value : (ℕ → D) → Expr D → Option D
  value rate (number v) = some v
  value rate (source i) = some (rate i)
  value rate (apply op e) = apply_to (unary_meaning op) (value rate e)
  value rate (combine op a b) = combine_to (binary_meaning op) (value rate a) (value rate b)
  value rate (if_else a b e) = join if_meaning (value rate a) (value rate b) (value rate e)
  value rate (limited a b e) = join limit_meaning (value rate a) (value rate b) (value rate e)

  same-are_equal : (x y : D) → same x y ≡ are_equal x y
  same-are_equal x y = ground arith

  choose-if_meaning : (x y z : D) → choose x y z ≡ if_meaning x y z
  unfolding choose
  choose-if_meaning x y z = ground arith

  within_limits-limit_meaning : (x y z : D) → within_limits x y z ≡ limit_meaning x y z
  unfolding within_limits
  within_limits-limit_meaning x y z = ground arith

  rpn_step-unary :
      (op : Op) (r : Rpnp D) (c : Call D) (x : D) (s : List D) (size : ℕ) {f : D → D}
      → unary_meaning op ≡ some f
      → rpn_step op r c (x ∷ s) size ≡ ran (f x ∷ s, size)
  unfolding rpn_step operate unary_of apply_op unary_meaning
  rpn_step-unary op_sin r c x s size h = ap (λ g. ran (g x ∷ s, size)) (some_inj h)
  rpn_step-unary op_cos r c x s size h = ap (λ g. ran (g x ∷ s, size)) (some_inj h)
  rpn_step-unary op_atan r c x s size h = ap (λ g. ran (g x ∷ s, size)) (some_inj h)
  rpn_step-unary op_log r c x s size h = ap (λ g. ran (g x ∷ s, size)) (some_inj h)
  rpn_step-unary op_exp r c x s size h = ap (λ g. ran (g x ∷ s, size)) (some_inj h)
  rpn_step-unary op_sqrt r c x s size h = ap (λ g. ran (g x ∷ s, size)) (some_inj h)
  rpn_step-unary op_ceil r c x s size h = ap (λ g. ran (g x ∷ s, size)) (some_inj h)
  rpn_step-unary op_floor r c x s size h = ap (λ g. ran (g x ∷ s, size)) (some_inj h)
  rpn_step-unary op_round r c x s size h = ap (λ g. ran (g x ∷ s, size)) (some_inj h)
  rpn_step-unary op_abs r c x s size h = ap (λ g. ran (g x ∷ s, size)) (some_inj h)
  rpn_step-unary op_rad2deg r c x s size h = ap (λ g. ran (g x ∷ s, size)) (some_inj h)
  rpn_step-unary op_deg2rad r c x s size h = ap (λ g. ran (g x ∷ s, size)) (some_inj h)
  rpn_step-unary op_un r c x s size h = ap (λ g. ran (g x ∷ s, size)) (some_inj h)
  rpn_step-unary op_isinf r c x s size h = ap (λ g. ran (g x ∷ s, size)) (some_inj h)
  rpn_step-unary _ r c x s size h = cc

  rpn_step-binary :
      (op : Op) (r : Rpnp D) (c : Call D) (x y : D) (s : List D) (size : ℕ) {f : D → D → D}
      → binary_meaning op ≡ some f
      → rpn_step op r c (y ∷ x ∷ s) size ≡ ran (f x y ∷ s, size)
  unfolding rpn_step operate unary_of binary_of apply_op binary_meaning nan_or known_or
  rpn_step-binary op_add r c x y s size h = ap (λ g. ran (g x y ∷ s, size)) (some_inj h)
  rpn_step-binary op_sub r c x y s size h = ap (λ g. ran (g x y ∷ s, size)) (some_inj h)
  rpn_step-binary op_mul r c x y s size h = ap (λ g. ran (g x y ∷ s, size)) (some_inj h)
  rpn_step-binary op_div r c x y s size h = ap (λ g. ran (g x y ∷ s, size)) (some_inj h)
  rpn_step-binary op_mod r c x y s size h = ap (λ g. ran (g x y ∷ s, size)) (some_inj h)
  rpn_step-binary op_pow r c x y s size h = ap (λ g. ran (g x y ∷ s, size)) (some_inj h)
  rpn_step-binary op_atan2 r c x y s size h = ap (λ g. ran (g x y ∷ s, size)) (some_inj h)
  rpn_step-binary op_addnan r c x y s size h = ap (λ g. ran (g x y ∷ s, size)) (some_inj h)
  rpn_step-binary op_lt r c x y s size h = ap (λ g. ran (g x y ∷ s, size)) (some_inj h)
  rpn_step-binary op_le r c x y s size h = ap (λ g. ran (g x y ∷ s, size)) (some_inj h)
  rpn_step-binary op_gt r c x y s size h = ap (λ g. ran (g x y ∷ s, size)) (some_inj h)
  rpn_step-binary op_ge r c x y s size h = ap (λ g. ran (g x y ∷ s, size)) (some_inj h)
  rpn_step-binary op_ne r c x y s size h =
      ap (λ b. ran (unless_unknown x y (one_if (not b)) ∷ s, size)) (same-are_equal x y)
      ∙ ap (λ g. ran (g x y ∷ s, size)) (some_inj h)
  rpn_step-binary op_eq r c x y s size h =
      ap (λ b. ran (unless_unknown x y (one_if b) ∷ s, size)) (same-are_equal x y)
      ∙ ap (λ g. ran (g x y ∷ s, size)) (some_inj h)
  rpn_step-binary op_min r c x y s size h = ap (λ g. ran (g x y ∷ s, size)) (some_inj h)
  rpn_step-binary op_minnan r c x y s size h = ap (λ g. ran (g x y ∷ s, size)) (some_inj h)
  rpn_step-binary op_max r c x y s size h = ap (λ g. ran (g x y ∷ s, size)) (some_inj h)
  rpn_step-binary op_maxnan r c x y s size h = ap (λ g. ran (g x y ∷ s, size)) (some_inj h)
  rpn_step-binary _ r c x y s size h = cc

module _ {D : Type 0} ⦃d : Double D⦄ ⦃m : Math D⦄ where
  pub apply_to-eq_some :
      (f : Option (D → D)) (o : Option D) {v : D}
      → apply_to f o ≡ some v
      → (g : D → D) × (x : D) × (f ≡ some g) × (o ≡ some x) × (g x ≡ v)
  apply_to-eq_some (some g) (some x) h = (g, x, refl, refl, some_inj h)
  apply_to-eq_some (some g) none h = cc
  apply_to-eq_some none o h = cc

  pub combine_to-eq_some :
      (f : Option (D → D → D)) (o q : Option D) {v : D}
      → combine_to f o q ≡ some v
      → (g : D → D → D) × (x y : D) × (f ≡ some g) × (o ≡ some x) × (q ≡ some y) × (g x y ≡ v)
  combine_to-eq_some (some g) (some x) (some y) h = (g, x, y, refl, refl, refl, some_inj h)
  combine_to-eq_some (some g) (some x) none h = cc
  combine_to-eq_some (some g) none q h = cc
  combine_to-eq_some none o q h = cc

  pub join-eq_some :
      (g : D → D → D → D) (o p q : Option D) {v : D}
      → join g o p q ≡ some v
      → (x y z : D) × (o ≡ some x) × (p ≡ some y) × (q ≡ some z) × (g x y z ≡ v)
  join-eq_some g (some x) (some y) (some z) h = (x, y, z, refl, refl, refl, some_inj h)
  join-eq_some g (some x) (some y) none h = cc
  join-eq_some g (some x) none q h = cc
  join-eq_some g none p q h = cc

module _ {D : Type 0} ⦃d : Double D⦄ ⦃m : Math D⦄ (c : Call D) where
  -- a sequence of nodes, in front of others, takes the stack `s` to `t`
  abbrev Runs : List (Rpnp D) → List D → List D → Type 0
  Runs code s t =
      (rest : List (Rpnp D)) (size : ℕ)
      → (size' : ℕ) × (rpn_loop (code ++ rest) c s size ≡ rpn_loop rest c t size')

  Runs-append : (a b : List (Rpnp D)) (s t u : List D) → Runs a s t → Runs b t u → Runs (a ++ b) s u
  Runs-append a b s t u f g rest size =
      let (size1, e) = f (b ++ rest) size in
      let (size2, e') = g rest size1 in
      (size2, ap (λ l. rpn_loop l c s size) (append_assoc a b rest) ∙ e ∙ e')

  Runs-node :
      (r : Rpnp D) (s t : List D)
      → ((size : ℕ) → rpn_step r.op r c s size ≡ ran (t, size))
      → Runs (r ∷ []) s t
  unfolding rpn_loop
  Runs-node r s t f rest size = (grow (length s) size, rw (f (grow (length s) size)) refl)

  module _ (leaf : ℕ → Rpnp D) (rate : ℕ → D)
      (each : (i : ℕ) (s : List D) (size : ℕ)
        → rpn_step (leaf i).op (leaf i) c s size ≡ ran (rate i ∷ s, size)) where
    abbrev Pushes : Expr D → D → Type 0
    Pushes e v = (s : List D) → Runs (postfix leaf e) s (v ∷ s)

    Pushes-apply :
        (op : Op) (e : Expr D) (x : D) {f : D → D}
        → unary_meaning op ≡ some f
        → Pushes e x
        → Pushes (apply op e) (f x)
    unfolding postfix blank
    Pushes-apply op e x h p s =
        Runs-append (postfix leaf e) (node op ∷ []) s (x ∷ s) _ (p s)
          (Runs-node (node op) (x ∷ s) _ (λ size. rpn_step-unary op (node op) c x s size h))

    Pushes-combine :
        (op : Op) (a b : Expr D) (x y : D) {f : D → D → D}
        → binary_meaning op ≡ some f
        → Pushes a x
        → Pushes b y
        → Pushes (combine op a b) (f x y)
    unfolding postfix blank
    Pushes-combine op a b x y h p q s = Runs-append (postfix leaf a) _ s (x ∷ s) _ (p s) (
        Runs-append (postfix leaf b) (node op ∷ []) (x ∷ s) (y ∷ x ∷ s) _ (q (x ∷ s))
          (Runs-node (node op) (y ∷ x ∷ s) _ (λ size. rpn_step-binary op (node op) c x y s size h)))

    -- three operands and the node that joins them
    Runs-three :
        (a b e : Expr D) (r : Rpnp D) (x y z w : D) (s : List D)
        → Pushes a x
        → Pushes b y
        → Pushes e z
        → ((size : ℕ) → rpn_step r.op r c (z ∷ y ∷ x ∷ s) size ≡ ran (w ∷ s, size))
        → Runs (postfix leaf a ++ (postfix leaf b ++ (postfix leaf e ++ (r ∷ [])))) s (w ∷ s)
    Runs-three a b e r x y z w s p q o step = Runs-append (postfix leaf a) _ s (x ∷ s) _ (p s) (
        Runs-append (postfix leaf b) _ (x ∷ s) (y ∷ x ∷ s) _ (q (x ∷ s)) (
          Runs-append (postfix leaf e) (r ∷ []) (y ∷ x ∷ s) (z ∷ y ∷ x ∷ s) _ (o (y ∷ x ∷ s))
            (Runs-node r (z ∷ y ∷ x ∷ s) (w ∷ s) step)))

    postfix-Pushes : (e : Expr D) {v : D} → value rate e ≡ some v → Pushes e v
    unfolding postfix value rpn_step operate blank
    postfix-Pushes (number v) h =
        subst (Pushes (number v)) (some_inj h) (λ s. Runs-node _ s (v ∷ s) (λ size. refl))
    postfix-Pushes (source i) h =
        subst (Pushes (source i)) (some_inj h)
          (λ s. Runs-node (leaf i) s (rate i ∷ s) (λ size. each i s size))
    postfix-Pushes (apply op e) h =
        let (f, x, e1, e2, same) = apply_to-eq_some (unary_meaning op) (value rate e) h in
        subst (Pushes (apply op e)) same (Pushes-apply op e x e1 (postfix-Pushes e e2))
    postfix-Pushes (combine op a b) h =
        let (f, x, y, e1, e2, e3, same) =
          combine_to-eq_some (binary_meaning op) (value rate a) (value rate b) h in
        subst (Pushes (combine op a b)) same
          (Pushes-combine op a b x y e1 (postfix-Pushes a e2) (postfix-Pushes b e3))
    postfix-Pushes (if_else a b e) h =
        let (x, y, z, e1, e2, e3, same) =
          join-eq_some if_meaning (value rate a) (value rate b) (value rate e) h in
        subst (Pushes (if_else a b e)) same (λ s.
          Runs-three a b e (node op_if) x y z (if_meaning x y z) s (postfix-Pushes a e1)
            (postfix-Pushes b e2) (postfix-Pushes e e3)
            (λ size. ap (λ w. ran (w ∷ s, size)) (choose-if_meaning x y z)))
    postfix-Pushes (limited a b e) h =
        let (x, y, z, e1, e2, e3, same) =
          join-eq_some limit_meaning (value rate a) (value rate b) (value rate e) h in
        subst (Pushes (limited a b e)) same (λ s.
          Runs-three a b e (node op_limit) x y z (limit_meaning x y z) s (postfix-Pushes a e1)
            (postfix-Pushes b e2) (postfix-Pushes e e3)
            (λ size. ap (λ w. ran (w ∷ s, size)) (within_limits-limit_meaning x y z)))

    -- Run on an expression in postfix form, whose operators have as many operands as they take and
    -- the nodes of whose data sources push their rates, `rpn_calc` succeeds with the value.
    pub rpn_calc-postfix :
        (e : Expr D) (dc_stacksize : ℕ) {v : D}
        → value rate e ≡ some v
        → rpn_calc (postfix leaf e) c dc_stacksize ≡ ran v
    unfolding rpn_calc rpn_loop final_value
    rpn_calc-postfix e dc_stacksize {v} h =
        let (size, ran_all) = postfix-Pushes e h [] [] dc_stacksize in
        let alone : rpn_loop (postfix leaf e) c [] dc_stacksize ≡ ran (v ∷ []) =
          ap (λ l. rpn_loop l c [] dc_stacksize) (sym (append-nil (postfix leaf e))) ∙ ran_all in
        rw alone refl
