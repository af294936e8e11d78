-- ===== src/Rpn/Compute/Previous.antt =====
-- `PREV(name)` in a COMPUTE data source: `parseCDEF_DS` accepts it, and `rpn_calc` gives up on it.
use rrdtool_1_x.Prelude.{ℕ, ◌≡◌, refl, ◌⊎◌, inl, inr, List, [], ◌∷◌, length}
use mathlib.Core.Path.{subst}
use rrdtool_1_x.Prelude.Double.{Double}
use rrdtool_1_x.Rpn.{op_prev_other, Rpnp, RpnCdefds, Math}
use rrdtool_1_x.Rpn.Compact.{blank, expand_node, rpn_expand}
use rrdtool_1_x.Rpn.Ranges.{ran, failed, vdef_in_rpn}
use rrdtool_1_x.Rpn.Calc.{Call, grow, variable_before, operate, rpn_step, rpn_loop, rpn_calc}
use rrdtool_1_x.Rpn.Compute.{substitute_node, substitute, compute_cdef}
use rrdtool_1_x.Rpn.Compute.Value.{Run-elim, ran_inj}

abbrev pub Any : {A : Type 0} → (A → Type 0) → List A → Type 0
Any P [] = ⊥
Any P (x ∷ xs) = P x ⊎ Any P xs

-- a stored node of `PREV(name)`
abbrev pub IsPrevOther : RpnCdefds → Type 0
IsPrevOther r = r.op ≡ op_prev_other

module _ {D : Type 0} ⦃d : Double D⦄ ⦃m : Math D⦄ where
  -- a node of `PREV(name)` that is no pointer into data
  abbrev IsPrevious : Rpnp D → Type 0
  IsPrevious r = (r.op ≡ op_prev_other) × (r.ds_cnt ≡ 0)

  previous_step :
      (r : Rpnp D) (c : Call D) (s : List D) (size : ℕ)
      → IsPrevious r
      → rpn_step r.op r c s size ≡ failed vdef_in_rpn
  unfolding rpn_step operate variable_before
  previous_step r c s size (op, alone) = rw op (rw alone refl)

  rpn_loop-Previous :
      (rpnp : List (Rpnp D)) (c : Call D) (s : List D) (size : ℕ) {out : List D}
      → Any IsPrevious rpnp
      → ¬ (rpn_loop rpnp c s size ≡ ran out)
  unfolding rpn_loop
  rpn_loop-Previous [] c s size bad h = bad
  rpn_loop-Previous (r ∷ rpnp) c s size (inl previous) h =
      let h' = rw (previous_step r c s (grow (length s) size) previous) at h in cc
  rpn_loop-Previous (r ∷ rpnp) c s size (inr bad) h =
      Run-elim (rpn_step r.op r c s (grow (length s) size)) h
        λ (t, size') _ h1. rpn_loop-Previous rpnp c t size' bad h1

  substituted :
      (rates : List D) (r : RpnCdefds) (r' : Rpnp D)
      → IsPrevOther r
      → substitute_node rates (expand_node {D = D} r.op r.val).op (expand_node r.op r.val) ≡ ran r'
      → IsPrevious r'
  unfolding substitute_node expand_node blank
  substituted rates r r' op h = let h' = rw op at h in subst IsPrevious (ran_inj h') (refl, refl)

  substitute-Previous :
      (rates : List D) (cdef : List RpnCdefds) {rpnp : List (Rpnp D)}
      → Any IsPrevOther cdef
      → substitute rates (rpn_expand cdef) ≡ ran rpnp
      → Any IsPrevious rpnp
  unfolding substitute rpn_expand
  substitute-Previous rates [] bad h = elim bad [ ]
  substitute-Previous rates (r ∷ cdef) {rpnp = rpnp} (inl op) h =
      Run-elim (substitute_node rates _ (expand_node r.op r.val)) h λ r' e h1.
        Run-elim (substitute rates (rpn_expand cdef)) h1
          λ rest _ h2. subst (Any IsPrevious) (ran_inj h2) (inl (substituted rates r r' op e))
  substitute-Previous rates (r ∷ cdef) (inr bad) h =
      Run-elim (substitute_node rates _ (expand_node r.op r.val)) h λ r' e h1.
        Run-elim (substitute rates (rpn_expand cdef)) h1 λ rest e' h2.
          subst (Any IsPrevious) (ran_inj h2) (inr (substitute-Previous rates cdef bad e'))

  -- A COMPUTE data source whose stored expression has a node of PREV(name) never gets a value:
  -- `rpn_calc` fails at that node, if not before.
  pub compute_cdef-Previous :
      (cdef : List RpnCdefds) (rates : List D) (ds_idx pdp_step : ℕ) {v : D}
      → Any IsPrevOther cdef
      → ¬ (compute_cdef cdef rates ds_idx pdp_step ≡ ran v)
  unfolding compute_cdef rpn_calc
  compute_cdef-Previous cdef rates ds_idx pdp_step bad h =
      Run-elim (substitute rates (rpn_expand cdef)) h λ rpnp e h1.
        Run-elim (rpn_loop rpnp _ [] 0) h1
          λ out e' h2. rpn_loop-Previous rpnp _ [] 0 (substitute-Previous rates cdef bad e) e'
