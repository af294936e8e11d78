-- ===== src/Create/Coverage/Visits.antt =====
-- What `add_coverage` does at one interval. A second is before no interval, so an interval from
-- `suc a` to `b` is the seconds after `a` up to `b`; `a` and `b` are its cuts.
use rrdtool_1_x.Prelude.{
  ℕ, suc, ◌+◌, ◌-◌, ◌≤◌, ◌<◌, ◌≡◌, refl, ◌⊎◌, inl, inr, Bool, true, false, ◌&&◌, arith, leb,
  if◌then◌else◌,
}
use rrdtool_1_x.Create.Coverage.{
  Interval, interval, overlap, is_interval_within_interval, is_time_within_interval, go_on, put_in,
  visit_inside, visit_start, visit_whole, visit,
}

abbrev pub within : ℕ → ℕ → ℕ → Bool
within start end t = leb start t && leb t end

abbrev pub covers_one : Interval → ℕ → Bool
covers_one c t = c.covered && within c.start c.end t

abbrev pub seconds_one : Interval → ℕ
seconds_one c = if c.covered then c.end + 1 - c.start else 0

pub within_true :
    (s1 e1 s2 e2 : ℕ) → s1 < e1 → s2 ≤ s1 → e1 ≤ e2 → is_interval_within_interval s1 e1 s2 e2 ≡ true
unfolding is_interval_within_interval overlap
within_true s1 e1 s2 e2 h k l = ground arith

pub within_false :
    (s1 e1 s2 e2 : ℕ)
    → s1 < e1
    → s2 < e2
    → (s1 < s2) ⊎ (e2 < e1)
    → is_interval_within_interval s1 e1 s2 e2 ≡ false
unfolding is_interval_within_interval overlap
within_false s1 e1 s2 e2 h l k = ground arith

module _ (a x e : ℕ) (c : Interval) (from : c.start ≡ suc a) where
  -- The new interval comes after this one.
  pub visit-after : suc a < c.end → c.end ≤ x → suc x < e → visit (suc x) e c ≡ go_on c 0 (suc x)
  unfolding visit visit_whole visit_start is_time_within_interval
  visit-after long after new =
      rw
        (
          within_false (suc x) e c.start c.end new (omega (arith, from)) (inr (omega arith)),
          within_false c.start c.end (suc x) e (omega (arith, from)) new
              (inl (omega (arith, from))),
        )
        (ground (arith, from, after))

  pub visit-inside : a ≤ x → e ≤ c.end → suc x < e → visit (suc x) e c ≡ visit_inside (suc x) e c
  unfolding visit
  visit-inside first last new =
      rw (within_true (suc x) e c.start c.end new (omega (arith, from)) last) refl

  -- The new interval starts with this one and goes on after it.
  pub visit-whole :
      suc a < c.end
      → x ≡ a
      → c.end < e
      → visit (suc x) e c
        ≡ go_on
            (interval true c.start c.end)
            (if c.covered then 0 else c.end + 1 - c.start)
            (c.end + 1)
  unfolding visit visit_whole visit_start is_time_within_interval
  visit-whole long same after =
      rw
        (
          within_false (suc x) e c.start c.end (omega arith) (omega (arith, from))
              (inr (omega arith)),
          within_true c.start c.end (suc x) e (omega (arith, from)) (omega (arith, from))
              (omega arith),
        )
        (ground (arith, from, same, after, long))

  -- The new interval starts inside this one and goes on after it.
  pub visit-part :
      suc a < c.end
      → a < x
      → x < c.end
      → c.end < e
      → visit (suc x) e c ≡ (
          if c.covered
          then go_on c 0 (c.end + 1)
          else put_in
              (interval false c.start x)
              (interval true (suc x) c.end)
              (c.end + 1 - suc x)
              (c.end + 1))
  unfolding visit visit_whole visit_start is_time_within_interval
  visit-part long inner some_left after =
      rw
        (
          within_false (suc x) e c.start c.end (omega arith) (omega (arith, from))
              (inr (omega arith)),
          within_false c.start c.end (suc x) e (omega (arith, from)) (omega arith)
              (inl (omega (arith, from))),
        )
        (ground (arith, from, inner, some_left, after))
