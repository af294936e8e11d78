-- ===== src/Create/Coverage/Add.antt =====
-- `add_coverage` as a whole, with its trimming and its cleanup pass.
use rrdtool_1_x.Prelude.{
  ℕ, suc, ◌+◌, ◌^◌, ◌≤◌, ◌<◌, ◌≡◌, refl, sym, ap, ◌∙◌, inl, inr, Bool, true, false, ◌||◌, not, some,
  List, [], ◌∷◌, arith, ltb, if◌then◌else◌, Bool-cases,
}
use mathlib.Core.Path.{subst}
use native.Mathlib.Decide.{dec_lt}
use rrdtool_1_x.Prelude.Int.{pos}
use rrdtool_1_x.Create.Times.Rows.{as_int_fits}
use rrdtool_1_x.Create.Coverage.{
  Interval, same_kind, collapse_from, collapse, last_end, min_time, max_time, visits, add_coverage,
}
use rrdtool_1_x.Create.Coverage.Visits.{within}
use rrdtool_1_x.Create.Coverage.Cover.{covers, seconds, Tiles, Covered, weight-le}
use rrdtool_1_x.Create.Coverage.Loop.{cover_lem}

-- No two neighbours are of one kind, and the first is not of the kind `k`.
abbrev pub Alternates : Bool → List Interval → Type 0
Alternates k [] = Unit {0}
Alternates k (c ∷ cs) = (c.covered ≡ not k) × Alternates c.covered cs

abbrev pub IsCollapsed : List Interval → Type 0
IsCollapsed [] = Unit {0}
IsCollapsed (c ∷ cs) = Alternates c.covered cs

kinds : (a b : Bool) → (same_kind a b ≡ true → b ≡ a) × (same_kind a b ≡ false → b ≡ not a)
kinds true true = (λ e. refl, λ e. cc)
kinds true false = (λ e. cc, λ e. refl)
kinds false true = (λ e. cc, λ e. refl)
kinds false false = (λ e. refl, λ e. cc)

not_twice : (b : Bool) → b ≡ not (not b)
not_twice true = refl
not_twice false = refl

module _ (P : ℕ → Type 0) where
  -- The same seconds are covered, in intervals that follow one another.
  record Collapses (a b : ℕ) (k : Bool) (cs out : List Interval) : Type 0 where
    tiles : Tiles P a b out
    same_count : seconds out ≡ seconds cs
    same : (t : ℕ) → covers out t ≡ covers cs t
    apart : Alternates (not k) out

  collapse_from-Collapses :
      (a b : ℕ) (c : Interval) (cs : List Interval)
      → Tiles P a b (c ∷ cs)
      → Collapses a b c.covered (c ∷ cs) (collapse_from c cs)
  unfolding collapse_from
  collapse_from-Collapses a b c [] h = record {
    tiles = h;
    same_count = refl;
    same = λ t. refl;
    apart = (not_twice c.covered, tt);
  }
  collapse_from-Collapses a b c (d ∷ ds) (from, long, cut, (from', long', cut', rest)) =
      elim (Bool-cases (same_kind c.covered d.covered)) [
        | inl alike ↦
            let kind = (kinds c.covered d.covered).0 alike in
            let h =
              collapse_from-Collapses a b (record c { end = d.end }) ds
                (from, omega arith, cut', rest) in
            rw alike (record {
              tiles = h.tiles;
              same_count = h.same_count ∙ ground (arith, kind, from, from', long, long');
              same = λ t. h.same t ∙ ground (arith, kind, from, from', long, long');
              apart = h.apart;
            })
        | inr differ ↦
            let kind = (kinds c.covered d.covered).1 differ in
            let h = collapse_from-Collapses c.end b d ds (from', long', cut', rest) in
            rw differ (record {
              tiles = (from, long, cut, h.tiles);
              same_count = omega (arith, h.same_count);
              same = λ t. ground (arith, h.same t);
              apart = (
                not_twice c.covered,
                subst (λ k. Alternates k (collapse_from d ds))
                    (ap not kind ∙ sym (not_twice c.covered)) h.apart,
              );
            })
      ]

  pick : (b : Bool) (x y : ℕ) → P x → P y → P (if b then x else y)
  pick true x y h k = h
  pick false x y h k = k

  Tiles-last_end :
      (a b : ℕ) (c : Interval) (cs : List Interval) → Tiles P a b (c ∷ cs) → last_end c cs ≡ b
  Tiles-last_end a b c [] h = h.3
  Tiles-last_end a b c (d ∷ ds) h = Tiles-last_end c.end b d ds h.3

  Tiles-le : (a b : ℕ) (cs : List Interval) → Tiles P a b cs → a ≤ b
  Tiles-le a b [] h = omega arith
  Tiles-le a b (c ∷ cs) h = omega (arith, Tiles-le c.end b cs h.3)

  -- no more seconds are covered than there are
  seconds-le : (a b : ℕ) (cs : List Interval) → Tiles P a b cs → seconds cs + a ≤ b
  seconds-le a b [] h = omega (arith, h)
  seconds-le a b (c ∷ cs) h = ground (arith, h.0, h.1, seconds-le c.end b cs h.3)

  -- `out` covers from `a` to `b` what `cs` covers and the seconds from `start` to `end`, of which
  -- `newly` are new.
  pub record Added (a b start end : ℕ) (cs out : List Interval) (newly : ℕ) : Type 0 where
    pub tiles : Tiles P a b out
    pub count : newly + seconds cs ≡ seconds out
    pub exact : (t : ℕ) → a < t → t ≤ b → covers out t ≡ (covers cs t || within start end t)
    pub collapsed : IsCollapsed cs → IsCollapsed out

  collapse-Added :
      (a b start end start' end' n : ℕ) (cs out : List Interval)
      → a < b
      → Covered P a b start' end' cs out n
      → ((t : ℕ) → a < t → t ≤ b → within start' end' t ≡ within start end t)
      → Added a b start end cs (collapse out) n
  unfolding collapse
  collapse-Added a b start end start' end' n cs [] some_time s trimmed =
      absurd (omega (arith, s.tiles))
  collapse-Added a b start end start' end' n cs (c ∷ out) some_time s trimmed =
      let k = collapse_from-Collapses a b c out s.tiles in
      record {
        tiles = k.tiles;
        count = s.count ∙ sym k.same_count;
        exact = λ t l m. k.same t ∙ s.exact t ∙ ap (λ w. covers cs t || w) (trimmed t l m);
        collapsed = λ h. head_kind (collapse_from c out) (not c.covered) k.apart;
      }
    where
      head_kind : (xs : List Interval) (k : Bool) → Alternates k xs → IsCollapsed xs
      head_kind [] k h = tt
      head_kind (x ∷ xs) k h = h.1

  module _ (spaced : (p q : ℕ) → P p → P q → p < q → suc p < q) where
    -- Where the intervals follow one another from `a` to `b`, no two of their cuts and those of the
    -- new interval are one second apart, and there are fewer than 2 ^ 31 seconds from `a` to `b`,
    -- `add_coverage` comes to an end. The intervals still follow one another from `a` to `b`; in
    -- between, a second is covered exactly if it was or if it lies in the new interval; and the
    -- number returned is that of the seconds newly covered. If no two neighbours were of one kind
    -- before, none are afterwards.
    pub add_coverage-Added :
        (a b x end : ℕ) (first : Interval) (rest : List Interval)
        → P a
        → P b
        → P x
        → P end
        → x < end
        → b < a + 2 ^ 31
        → Tiles P a b (first ∷ rest)
        → (out : List Interval) × (newly : ℕ) × (add_coverage first rest (suc x) end
            ≡ some (out, pos newly))
          × Added a b (suc x) end (first ∷ rest) out newly
    unfolding add_coverage
    add_coverage-Added a b x end first rest pa pb px pe some_time short tiles =
        let at_end = Tiles-last_end a b first rest tiles in
        let from : first.start ≡ suc a = tiles.0 in
        let size : a < b = omega (arith, tiles.1, Tiles-le first.end b rest tiles.3) in
        elim (dec_lt a end) [
          | no before ↦ (
            first ∷ rest,
            0,
            ground (arith, from, before),
            record {
              tiles = tiles;
              count = omega arith;
              exact = λ t l m. ground (arith, before, l);
              collapsed = λ h. h;
            },
          )
          | yes reaches ↦ elim (dec_lt x b) [
            | no after ↦ (
              first ∷ rest,
              0,
              ground (arith, from, after, at_end),
              record {
                tiles = tiles;
                count = omega arith;
                exact = λ t l m. ground (arith, after, m);
                collapsed = λ h. h;
              },
            )
            | yes starts ↦
                let x' : ℕ = if ltb x a then a else x in
                let e' : ℕ = if ltb b end then b else end in
                let starts_at : max_time first.start (suc x) ≡ suc x' = ground (arith, from) in
                let ends_at : min_time (last_end first rest) end ≡ e' = ground (arith, at_end) in
                let some_left : (ltb e' first.start || ltb (last_end first rest) (suc x')) ≡ false =
                  ground (arith, from, at_end) in
                let (out, n, ran, s) =
                  cover_lem P spaced (visits (first ∷ rest)) a b x' e' (first ∷ rest)
                    (omega (arith, weight-le (first ∷ rest))) pa (pick (ltb x a) a x pa px)
                    (pick (ltb b end) b end pb pe) (ground arith) (ground arith) (ground arith)
                    tiles in
                let done =
                  collapse-Added a b (suc x) end (suc x') e' n (first ∷ rest) out size s
                    (λ t l m. ground (arith, l, m)) in
                let few : n < 2 ^ 31 =
                  omega (arith, done.count, seconds-le a b (collapse out) done.tiles) in
                (
                  collapse out,
                  n,
                  rw (starts_at, ends_at, some_left, ran, as_int_fits n few) refl,
                  done,
                )
          ]
        ]
