-- ===== src/Rpn/Compact.antt =====
-- `rpn_compact` and `rpn_expand` of src/rrd_rpncalc.c: the stored form of an expression.
pub mod RoundTrip
use rrdtool_1_x.Prelude.{
  ◌>>=◌, ℕ, ◌+◌, ◌-◌, ◌%◌, ◌^◌, Bool, not, ◌&&◌, ◌||◌, Option, none, some, List, [], ◌∷◌, map, ltb,
  leb, if◌then◌else◌, length,
}
use rrdtool_1_x.Prelude.Int.{ℤ, pos, negsuc, pos_part, neg_part, sub_ℕ}
use rrdtool_1_x.Prelude.Double.{Double}
use rrdtool_1_x.Rpn.Ranges.{Run, ran, failed, wild, not_compact}
use rrdtool_1_x.Rpn.{Op, op_number, op_variable, op_prev_other, Rpnp, RpnCdefds, Math}

-- DS_CDEF_MAX_RPN_NODES: 80 bytes of `par`, 4 for a node
abbrev pub ds_cdef_max_rpn_nodes : ℕ
ds_cdef_max_rpn_nodes = 20

-- the conversion to a `short`
unfoldable pub as_short : ℤ → ℤ
as_short z =
    let r = (pos_part z + 2 ^ 16 - neg_part z % 2 ^ 16) % 2 ^ 16 in
    if ltb r (2 ^ 15) then pos r else sub_ℕ r (2 ^ 16)

-- `==` on doubles
abbrev pub eq_double : {D : Type 0} → ⦃d : Double D⦄ → D → D → Bool
eq_double ⦃d⦄ x y = not (d.is_nan x) && not (d.is_nan y) && not (d.lt x y) && not (d.lt y x)

module _ {D : Type 0} ⦃d : Double D⦄ ⦃m : Math D⦄ where
  open d use {of_nat, of_int, floor, lt}

  abbrev pub shrt_min : D
  shrt_min = of_int (negsuc 32_767)

  abbrev pub shrt_max : D
  shrt_max = of_int (pos 32_767)

  -- a constant, which must be an integer that fits
  unfoldable pub compact_val : D → Option ℤ
  compact_val val =
      let temp = floor val in
      if lt temp shrt_min || lt shrt_max temp || not (eq_double temp val)
      then none
      else some (as_short (m.to_int temp))

  unfoldable pub compact_node : Op → Rpnp D → Option ℤ
  compact_node op_number r = compact_val r.val
  compact_node op_variable r = some (as_short r.ptr)
  compact_node op_prev_other r = some (as_short r.ptr)
  compact_node _ r = some (pos 0)

  unfoldable pub compact_nodes : List (Rpnp D) → Option (List RpnCdefds)
  compact_nodes [] = some []
  compact_nodes (r ∷ rpnp) = do
    val ← compact_node r.op r
    rpnc ← compact_nodes rpnp
    some (record { op = r.op; val = val } ∷ rpnc)

  -- The count is a `short`. From 2 ^ 15 nodes on, with the one at the end, it goes on below 0: nodes
  -- before the first are read, or the end passes the check and is written before the array.
  unfoldable pub rpn_compact : List (Rpnp D) → Run (List RpnCdefds)
  rpn_compact rpnp =
      if leb (2 ^ 15) (length rpnp + 1)
      then wild
      else if ltb ds_cdef_max_rpn_nodes (length rpnp + 1)
      then failed not_compact
      else elim (compact_nodes rpnp) [ none ↦ failed not_compact | some rpnc ↦ ran rpnc ]

  -- a node of `calloc`
  unfoldable pub blank : Op → Rpnp D
  blank op = record {
    op = op;
    val = of_nat 0;
    ptr = pos 0;
    data_array = [];
    data_idx = 0;
    ds_cnt = 0;
    step = 0;
  }

  unfoldable pub expand_node : Op → ℤ → Rpnp D
  expand_node op_number val = record (blank op_number) { val = of_int val }
  expand_node op_variable val = record (blank op_variable) { ptr = val }
  expand_node op_prev_other val = record (blank op_prev_other) { ptr = val }
  expand_node op val = blank op

  unfoldable pub rpn_expand : List RpnCdefds → List (Rpnp D)
  rpn_expand rpnc = map (λ r. expand_node r.op r.val) rpnc
