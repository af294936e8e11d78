-- ===== src/Rpn/Calc/Room.antt =====
-- The places of the stack that `COPY` writes to.
use rrdtool_1_x.Prelude.{
  ℕ, zero, suc, ◌+◌, ◌-◌, ◌*◌, ◌≤◌, ◌<◌, ◌≡◌, refl, ◌⊎◌, inl, inr, List, ◌++◌, arith, length, take,
  lt→ltb, le→ltb_false,
}
use native.Mathlib.Decide.{dec_lt}
use rrdtool_1_x.Rpn.Ranges.{ran, wild}
use rrdtool_1_x.Rpn.Calc.{copy_room, copy_elements}

-- enough rounds make enough room
copy_room-le :
    (fuel wanted size : ℕ) → wanted ≤ size + 1000 * fuel → wanted ≤ copy_room fuel wanted size
unfolding copy_room
copy_room-le zero wanted size h = omega arith
copy_room-le (suc fuel) wanted size h =
    let rest = copy_room-le fuel wanted (size + 1000) (omega arith) in ground (arith, rest)

-- The room, when the loop has ended.
abbrev pub room_for : {D : Type 0} → ℕ → List D → ℕ → ℕ
room_for n s dc_stacksize = copy_room (length s + n) (length s + n - 1) dc_stacksize

-- A copy of at least one element succeeds, its last place being within the stack, or its last place is
-- the first one past the end of the stack and the copy writes there.
pub copy_elements_lem :
    {D : Type 0} (n : ℕ) (s : List D) (dc_stacksize : ℕ)
    → 0 < n
    → ((length s + n - 1 < room_for n s dc_stacksize)
        × (copy_elements n s dc_stacksize ≡ ran (take n s ++ s, room_for n s dc_stacksize)))
      ⊎ ((room_for n s dc_stacksize ≡ length s + n - 1) × (copy_elements n s dc_stacksize ≡ wild))
unfolding copy_elements
copy_elements_lem n s dc_stacksize pos =
    let enough = copy_room-le (length s + n) (length s + n - 1) dc_stacksize (omega arith) in
    elim (dec_lt (length s + n - 1) (room_for n s dc_stacksize)) [
      | yes p ↦ inl (p, rw (lt→ltb (length s + n - 1) (room_for n s dc_stacksize) p) refl)
      | no p ↦
          let end : room_for n s dc_stacksize ≡ length s + n - 1 = omega (arith, enough) in
          inr (
            end,
            rw (le→ltb_false (length s + n - 1) (room_for n s dc_stacksize) (omega (arith, end)))
                (ground (arith, pos)),
          )
    ]
