-- ===== src/Create/Coverage/Recount.antt =====
-- Intervals of one second, which start where they end.
use rrdtool_1_x.Prelude.{
  ℕ, suc, ◌+◌, ◌-◌, ◌≤◌, ◌<◌, ◌≡◌, refl, true, false, ◌||◌, some, List, [], ◌∷◌, ◌++◌, arith, ltb,
}
use rrdtool_1_x.Prelude.Int.{pos}
use rrdtool_1_x.Update.Pdp.{as_int}
use rrdtool_1_x.Create.Coverage.{
  Interval, interval, overlap, is_interval_within_interval, leave, visit_inside, visit, cover,
  collapse, min_time, max_time, add_coverage,
}
use rrdtool_1_x.Create.Coverage.Cover.{covers}

-- An interval of one second is taken to be within every other.
one_second_within :
    (t start end : ℕ) → start ≤ end → is_interval_within_interval t t start end ≡ true
unfolding is_interval_within_interval overlap
one_second_within t start end h = ground arith

split_before :
    (start m t : ℕ)
    → start < m
    → m < t
    → visit t t (interval false start m)
      ≡ leave (interval false start (t - 1) ∷ interval true t t ∷ interval false (t + 1) m ∷ []) 1
unfolding visit visit_inside
split_before start m t h k = rw (one_second_within t start m (omega arith)) (ground (arith, h, k))

cover-leave :
    (fuel start end newly : ℕ) (c : Interval) (cs out : List Interval)
    → visit start end c ≡ leave out newly
    → cover (suc fuel) start end (c ∷ cs) ≡ some (out ++ cs, newly)
unfolding cover
cover-leave fuel start end newly c cs out e = rw (cover, e) refl

-- A second that is covered already is counted again: where some seconds before it are not covered, up
-- to `m`, and the second lies inside the covered interval after them, `add_coverage` of this second
-- returns 1.
pub add_coverage-recounts :
    (start m t end : ℕ)
    → start < m
    → m + 1 < t
    → t < end
    → (covers (interval false start m ∷ interval true (m + 1) end ∷ []) t ≡ true)
      × (out : List Interval) × (add_coverage
            (interval false start m)
            (interval true (m + 1) end ∷ [])
            t
            t
          ≡ some (out, pos 1))
unfolding add_coverage as_int
add_coverage-recounts start m t end h k l =
    let first : max_time start t ≡ t = ground arith in
    let last : min_time end t ≡ t = ground arith in
    let reached : (ltb t start || ltb end t) ≡ false = ground arith in
    (
      ground arith,
      collapse (
          interval false start (t - 1)
          ∷ interval true t t
          ∷ interval false (t + 1) m
          ∷ interval true (m + 1) end
          ∷ []),
      rw
          (
            first,
            last,
            reached,
            cover-leave 4 t t 1 (interval false start m) (interval true (m + 1) end ∷ [])
                (interval false start (t - 1) ∷ interval true t t ∷ interval false (t + 1) m ∷ [])
                (split_before start m t h (omega arith)),
          )
          refl,
    )
