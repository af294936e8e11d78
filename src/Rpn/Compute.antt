-- ===== src/Rpn/Compute.antt =====
-- The COMPUTE data sources of `process_pdp_st` of src/rrd_update.c.
pub mod Value
pub mod Previous
use rrdtool_1_x.Prelude.{ℕ, Option, none, some, List, [], ◌∷◌, get_elem?}
use rrdtool_1_x.Prelude.Int.{ℤ, pos, negsuc}
use rrdtool_1_x.Prelude.Double.{Double}
use rrdtool_1_x.Rpn.{Op, op_number, op_variable, Rpnp, RpnCdefds, Math}
use rrdtool_1_x.Rpn.Compact.{rpn_expand}
use rrdtool_1_x.Rpn.Ranges.{Run, ran, wild, ◌>>=◌, found}
use rrdtool_1_x.Rpn.Calc.{rpn_calc}

module _ {D : Type 0} where
  abbrev pub rate_at : List D → ℤ → Run D
  rate_at pdp_temp (pos i) = found (get_elem? pdp_temp i)
  rate_at pdp_temp (negsuc i) = wild

  -- "substitute data values for OP_VARIABLE nodes"
  unfoldable pub substitute_node : List D → Op → Rpnp D → Run (Rpnp D)
  substitute_node pdp_temp op_variable r =
      rate_at pdp_temp r.ptr >>= λ v. ran (record r { op = op_number; val = v })
  substitute_node pdp_temp op r = ran r

  unfoldable pub substitute : List D → List (Rpnp D) → Run (List (Rpnp D))
  substitute pdp_temp [] = ran []
  substitute pdp_temp (r ∷ rpnp) =
      substitute_node pdp_temp r.op r >>= λ r'. substitute pdp_temp rpnp >>= λ rest. ran (r' ∷ rest)

-- The value that `process_pdp_st` puts at `pdp_temp[ds_idx]`, on an empty stack.
unfoldable pub compute_cdef :
    {D : Type 0} → ⦃d : Double D⦄ → ⦃m : Math D⦄ → List RpnCdefds → List D → ℕ → ℕ → Run D
compute_cdef cdef pdp_temp ds_idx pdp_step = substitute pdp_temp (rpn_expand cdef) >>= λ rpnp.
    rpn_calc rpnp
      (record { data_idx = 0; output = pdp_temp; output_idx = ds_idx; step_width = pdp_step }) 0
