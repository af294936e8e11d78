-- ===== src/Rpn/Compact/RoundTrip.antt =====
-- What is kept of an expression in its stored form.
use rrdtool_1_x.Prelude.{
  ◌+◌, ◌^◌, ◌<◌, ◌≤◌, ◌≡◌, refl, sym, ap, ◌∙◌, inl, inr, some, List, [], ◌∷◌, map, arith, ltb, leb,
  length, Option-cases, Bool-cases, >>=-elim, some_inj, All,
}
use mathlib.Core.Path.{ap₂}
use rrdtool_1_x.Prelude.Int.{ℤ, pos, negsuc, pos_part, neg_part}
use rrdtool_1_x.Prelude.Double.{Double}
use rrdtool_1_x.Rpn.{Op, op_number, op_variable, op_prev_other, Rpnp, RpnCdefds, Math}
use rrdtool_1_x.Rpn.Ranges.{ran}
use rrdtool_1_x.Rpn.Compact.{
  as_short, eq_double, shrt_min, shrt_max, compact_val, compact_node, compact_nodes, rpn_compact,
  blank, expand_node, rpn_expand,
}

-- a value of a `short`
abbrev pub IsShort : ℤ → Type 0
IsShort z = (pos_part z < 2 ^ 15) × (neg_part z ≤ 2 ^ 15)

pub as_short_fits : (z : ℤ) → IsShort z → as_short z ≡ z
unfolding as_short
as_short_fits (pos n) h = ground arith
as_short_fits (negsuc n) h = ground arith

-- What the C language and IEEE 754 say of the conversion of an integer in the range of a `short`: it
-- is exact both ways.
pub record IsExactShort (D : Type 0) ⦃d : Double D⦄ ⦃m : Math D⦄ : Type 0 where
  pub floor-of_int : (z : ℤ) → IsShort z → d.floor (d.of_int z) ≡ d.of_int z
  pub to_int-of_int : (z : ℤ) → IsShort z → m.to_int (d.of_int z) ≡ z

module _ {D : Type 0} ⦃d : Double D⦄ ⦃m : Math D⦄ where
  -- what a node means: its operator, its constant and its variable
  abbrev pub essence_of : Op → Rpnp D → Rpnp D
  essence_of op_number r = record (blank op_number) { val = r.val }
  essence_of op_variable r = record (blank op_variable) { ptr = r.ptr }
  essence_of op_prev_other r = record (blank op_prev_other) { ptr = r.ptr }
  essence_of op r = blank op

  abbrev pub essence : Rpnp D → Rpnp D
  essence r = essence_of r.op r

  -- The index of a variable fits a `short`, and a constant is what an integer in the range of a
  -- `short` is converted to, which -0 is not.
  abbrev pub FitsShort : Rpnp D → Type 0
  FitsShort r = IsShort r.ptr × (r.op ≡ op_number → (z : ℤ) × IsShort z × (r.val ≡ d.of_int z))

  module _ (exact : IsExactShort D) where
    compact_val-of_int :
        (v : D) (z : ℤ) {z' : ℤ} → IsShort z → v ≡ d.of_int z → compact_val v ≡ some z' → z' ≡ z
    unfolding compact_val
    compact_val-of_int v z fits same h = elim (Bool-cases (d.lt (d.floor v) shrt_min)) [
      | inl e ↦ let h' = rw e at h in cc
      | inr e ↦ elim (Bool-cases (d.lt shrt_max (d.floor v))) [
        | inl e2 ↦ let h' = rw (e, e2) at h in cc
        | inr e2 ↦ elim (Bool-cases (eq_double (d.floor v) v)) [
          | inl e3 ↦
              let h' = rw (e, e2, e3) at h in
              let back : m.to_int (d.floor v) ≡ z =
                ap (λ x. m.to_int (d.floor x)) same
                ∙ ap m.to_int (exact.floor-of_int z fits)
                ∙ exact.to_int-of_int z fits in
              sym (some_inj h') ∙ ap as_short back ∙ as_short_fits z fits
          | inr e3 ↦ let h' = rw (e, e2, e3) at h in cc
        ]
      ]
    ]

    expand-compact_node :
        (op : Op) (r : Rpnp D) {z : ℤ}
        → IsShort r.ptr
        → (op ≡ op_number → (k : ℤ) × IsShort k × (r.val ≡ d.of_int k))
        → compact_node op r ≡ some z
        → expand_node op z ≡ essence_of op r
    unfolding compact_node expand_node
    expand-compact_node op_number r fits constant h =
        let (k, short, same) = constant refl in
        ap (λ v. record (blank op_number) { val = v })
          (ap d.of_int (compact_val-of_int r.val k short same h) ∙ sym same)
    expand-compact_node op_variable r fits constant h =
        ap (λ p. record (blank op_variable) { ptr = p })
          (sym (some_inj h) ∙ as_short_fits r.ptr fits)
    expand-compact_node op_prev_other r fits constant h =
        ap (λ p. record (blank op_prev_other) { ptr = p })
          (sym (some_inj h) ∙ as_short_fits r.ptr fits)
    expand-compact_node op r fits constant h = refl

    expand-compact_nodes :
        (rpnp : List (Rpnp D)) {rpnc : List RpnCdefds}
        → All FitsShort rpnp
        → compact_nodes rpnp ≡ some rpnc
        → rpn_expand rpnc ≡ map essence rpnp
    unfolding compact_nodes rpn_expand
    expand-compact_nodes [] fits h = ap (map (λ r. expand_node r.op r.val)) (sym (some_inj h))
    expand-compact_nodes (r ∷ rpnp) fits h = >>=-elim (compact_node r.op r) _ h λ z e h1.
        >>=-elim (compact_nodes rpnp) _ h1 λ rest e' h2.
          ap (map (λ r. expand_node r.op r.val)) (sym (some_inj h2))
          ∙ ap₂ (λ a b. a ∷ b) (expand-compact_node r.op r fits.0.0 fits.0.1 e)
              (expand-compact_nodes rpnp fits.1 e')

    -- Let the indices of variables fit a `short`, the constants be converted integers of its range
    -- (which -0 is not), and integers of that range be converted exactly. Then an expression that
    -- `rpn_compact` stores has at most 19 nodes and comes back from `rpn_expand` with the same
    -- operators, constants and variables.
    pub rpn_expand-compact :
        (rpnp : List (Rpnp D)) {rpnc : List RpnCdefds}
        → All FitsShort rpnp
        → rpn_compact rpnp ≡ ran rpnc
        → (length rpnp ≤ 19) × (rpn_expand rpnc ≡ map essence rpnp)
    unfolding rpn_compact
    rpn_expand-compact rpnp {rpnc} fits h = elim (Bool-cases (leb 32768 (length rpnp + 1))) [
      | inl e ↦ let h' = rw e at h in cc
      | inr e ↦ elim (Bool-cases (ltb 20 (length rpnp + 1))) [
        | inl e2 ↦ let h' = rw (e, e2) at h in cc
        | inr e2 ↦
            let h' = rw (e, e2) at h in
            elim (Option-cases (compact_nodes rpnp)) [
              | inl e3 ↦ let h'' = rw e3 at h' in cc
              | inr (nodes, e3) ↦
                  let h'' : ran nodes ≡ ran rpnc = rw e3 at h' in
                  let same : nodes ≡ rpnc = cc in
                  (ground (arith, e2), expand-compact_nodes rpnp fits (e3 ∙ ap some same))
            ]
      ]
    ]
