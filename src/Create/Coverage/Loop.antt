-- ===== src/Create/Coverage/Loop.antt =====
-- The loop of `add_coverage` over all intervals: it comes to an end, and covers the new interval.
use rrdtool_1_x.Prelude.{
  ℕ, zero, suc, ◌+◌, ◌-◌, ◌≤◌, ◌<◌, ◌≡◌, refl, ap, ◌∙◌, inl, inr, true, false, ◌||◌, some, List, [],
  ◌∷◌, ◌++◌, arith, if◌then◌else◌, Bool-cases, if_true, if_false,
}
use native.Mathlib.Numerals.{add-one}
use native.Mathlib.Decide.{dec_lt, ℕ_discrete}
use rrdtool_1_x.Create.Coverage.{Interval, interval, go_on, put_in, visit, cover}
use rrdtool_1_x.Create.Coverage.Visits.{
  within, covers_one, seconds_one, visit-after, visit-inside, visit-whole, visit-part,
}
use rrdtool_1_x.Create.Coverage.Cover.{
  Tiles, Covered, weight, Covered-cons, Covered-append, visit_inside-Covered,
}

module _ (P : ℕ → Type 0) (spaced : (p q : ℕ) → P p → P q → p < q → suc p < q) where
  -- the loop from the interval after `a`, the new interval being the seconds after `x` up to `e`
  abbrev Covers : ℕ → ℕ → ℕ → ℕ → ℕ → List Interval → Type 0
  Covers a b x e fuel cs =
      (out : List Interval) × (n : ℕ) × (cover fuel (suc x) e cs ≡ some (out, n))
      × Covered P a b (suc x) e cs out n

  go_on_lem :
      (fuel a b x x' e n : ℕ) (c c' : Interval) (cs : List Interval)
      → visit (suc x) e c ≡ go_on c' n (suc x')
      → c'.start ≡ suc a
      → a < c'.end
      → P c'.end
      → n + seconds_one c ≡ seconds_one c'
      → ((t : ℕ)
          → (covers_one c' t || within (suc x') e t) ≡ (covers_one c t || within (suc x) e t))
      → Covers c'.end b x' e fuel cs
      → Covers a b x e (suc fuel) (c ∷ cs)
  unfolding cover
  go_on_lem fuel a b x x' e n c c' cs visited from long cut counted same (out, m, ran, rest) = (
    c' ∷ out,
    n + m,
    rw (cover, visited, ran) refl,
    Covered-cons P a b (suc x) (suc x') e n m c c' cs out from long cut counted same rest,
  )

  put_in_lem :
      (fuel a b x e n : ℕ) (c : Interval) (cs : List Interval)
      → visit (suc x) e c
        ≡ put_in (interval false c.start x) (interval true (suc x) c.end) n (c.end + 1)
      → c.covered ≡ false
      → c.start ≡ suc a
      → a < x
      → x < c.end
      → c.end < e
      → P x
      → n ≡ c.end + 1 - suc x
      → Covers x b c.end e fuel (interval true (suc x) c.end ∷ cs)
      → Covers a b x e (suc fuel) (c ∷ cs)
  unfolding cover
  put_in_lem fuel a b x e n c cs visited fresh from inner left after px counted
        (out, m, ran, rest) =
      (
        interval false c.start x ∷ out,
        n + m,
        rw (cover, visited, add-one c.end, ran) refl,
        record {
          tiles = (from, inner, px, rest.tiles);
          count = ground (arith, fresh, counted, rest.count);
          exact = λ t. ground (arith, fresh, from, rest.exact t);
        },
      )

  pub cover_lem :
      (fuel a b x e : ℕ) (cs : List Interval)
      → weight cs < fuel
      → P a
      → P x
      → P e
      → a ≤ x
      → x < e
      → e ≤ b
      → Tiles P a b cs
      → Covers a b x e fuel cs
  unfolding cover
  cover_lem zero a b x e cs fuel_left pa px pe first new last tiles = elim fuel_left [ ]
  cover_lem (suc fuel) a b x e [] fuel_left pa px pe first new last tiles = absurd (omega arith)
  cover_lem (suc fuel) a b x e (c ∷ cs) fuel_left pa px pe first new last (from, long, cut, tiles) =
      let long' = spaced a c.end pa cut long in
      let new' = spaced x e px pe new in
      elim (dec_lt x c.end) [
        | no after ↦
            go_on_lem fuel a b x x e 0 c c cs (visit-after a x e c from long' (omega arith) new')
              from long cut (omega arith) (λ t. refl)
              (cover_lem fuel c.end b x e cs (ground (arith, fuel_left)) cut px pe (omega arith) new
                last tiles)
        | yes before ↦ elim (dec_lt c.end e) [
          | no inside ↦
              let (out, n, left, one) =
                visit_inside-Covered P a x e c from px pe cut first new' (omega arith) in
              (
                out ++ cs,
                n,
                rw (cover, visit-inside a x e c from first (omega arith) new', left) refl,
                Covered-append P a c.end b (suc x) e n c out cs tiles one,
              )
          | yes beyond ↦
              let rest =
                cover_lem fuel c.end b c.end e cs (ground (arith, fuel_left)) cut cut pe
                  (omega arith) beyond last tiles in
              elim (ℕ_discrete x a) [
                | yes same ↦
                    go_on_lem fuel a b x c.end e (if c.covered then 0 else c.end + 1 - c.start) c
                      (interval true c.start c.end) cs
                      (visit-whole a x e c from long' same beyond
                        ∙ ap
                            (go_on (interval true c.start c.end)
                              (if c.covered then 0 else c.end + 1 - c.start))
                            (add-one c.end))
                      from long cut (ground arith) (λ t. ground (arith, from, same)) rest
                | no inner ↦ elim (Bool-cases c.covered) [
                  | inl old ↦
                      go_on_lem fuel a b x c.end e 0 c c cs
                        (visit-part a x e c from long' (omega arith) before beyond
                          ∙ if_true _ _ old
                          ∙ ap (go_on c 0) (add-one c.end))
                        from long cut (omega arith) (λ t. ground (arith, from, old)) rest
                  | inr fresh ↦
                      put_in_lem fuel a b x e (c.end + 1 - suc x) c cs
                        (visit-part a x e c from long' (omega arith) before beyond
                          ∙ if_false _ _ fresh)
                        fresh from (omega arith) before beyond px refl
                        (cover_lem fuel x b c.end e (interval true (suc x) c.end ∷ cs)
                          (ground (arith, fuel_left, fresh)) px cut pe (omega arith) beyond last
                          (refl, before, cut, tiles))
                ]
              ]
        ]
      ]
