-- ===== src/Create/Coverage/Cover.antt =====
-- The loop of `add_coverage`: what it covers and what it counts.
use rrdtool_1_x.Prelude.{
  ℕ, suc, ◌+◌, ◌*◌, ◌-◌, ◌≤◌, ◌<◌, ◌≡◌, refl, ◌∙◌, inl, inr, Bool, true, false, ◌||◌, List, [], ◌∷◌,
  ◌++◌, arith, if◌then◌else◌, length, Bool-cases,
}
use mathlib.Core.Path.{subst}
use native.Mathlib.Decide.{ℕ_discrete}
use rrdtool_1_x.Create.Coverage.{Interval, interval, leave, visit_inside}
use rrdtool_1_x.Create.Coverage.Visits.{within, covers_one, seconds_one}

abbrev pub covers : List Interval → ℕ → Bool
covers [] t = false
covers (c ∷ cs) t = covers_one c t || covers cs t

abbrev pub seconds : List Interval → ℕ
seconds [] = 0
seconds (c ∷ cs) = seconds_one c + seconds cs

-- The intervals follow one another from the cut `a` to the cut `b`.
abbrev pub Tiles : (ℕ → Type 0) → ℕ → ℕ → List Interval → Type 0
Tiles P a b [] = a ≡ b
Tiles P a b (c ∷ cs) = (c.start ≡ suc a) × (a < c.end) × P c.end × Tiles P c.end b cs

-- `out` covers what `cs` does and the seconds from `start` to `end`, of which `newly` are new.
pub record Covered (P : ℕ → Type 0) (a b start end : ℕ) (cs out : List Interval) (newly : ℕ)
    : Type 0 where
  pub tiles : Tiles P a b out
  pub count : newly + seconds cs ≡ seconds out
  pub exact : (t : ℕ) → covers out t ≡ (covers cs t || within start end t)

-- the visits that a list may take
abbrev pub weight : List Interval → ℕ
weight [] = 0
weight (c ∷ cs) = (if c.covered then 1 else 2) + weight cs

pub weight-le : (cs : List Interval) → weight cs ≤ 2 * length cs
weight-le [] = omega arith
weight-le (c ∷ cs) = ground (arith, weight-le cs)

covers-append : (xs ys : List Interval) (t : ℕ) → covers (xs ++ ys) t ≡ (covers xs t || covers ys t)
covers-append [] ys t = refl
covers-append (x ∷ xs) ys t = ground (arith, covers-append xs ys t)

seconds-append : (xs ys : List Interval) → seconds (xs ++ ys) ≡ seconds xs + seconds ys
seconds-append [] ys = omega arith
seconds-append (x ∷ xs) ys = omega (arith, seconds-append xs ys)

Tiles-append :
    (P : ℕ → Type 0) (a m b : ℕ) (xs ys : List Interval)
    → Tiles P a m xs
    → Tiles P m b ys
    → Tiles P a b (xs ++ ys)
Tiles-append P a m b [] ys h k = rw h k
Tiles-append P a m b (x ∷ xs) ys h k = (h.0, h.1, h.2, Tiles-append P x.end m b xs ys h.3 k)

module _ (P : ℕ → Type 0) where
  -- one interval, passed or covered
  pub Covered-cons :
      (a b x x' e n m : ℕ) (c c' : Interval) (cs out : List Interval)
      → c'.start ≡ suc a
      → a < c'.end
      → P c'.end
      → n + seconds_one c ≡ seconds_one c'
      → ((t : ℕ) → (covers_one c' t || within x' e t) ≡ (covers_one c t || within x e t))
      → Covered P c'.end b x' e cs out m
      → Covered P a b x e (c ∷ cs) (c' ∷ out) (n + m)
  Covered-cons a b x x' e n m c c' cs out from long cut counted same rest = record {
    tiles = (from, long, cut, rest.tiles);
    count = omega (arith, counted, rest.count);
    exact = λ t. ground (arith, rest.exact t, same t);
  }

  pub Covered-append :
      (a m b x e n : ℕ) (c : Interval) (out cs : List Interval)
      → Tiles P m b cs
      → Covered P a m x e (c ∷ []) out n
      → Covered P a b x e (c ∷ cs) (out ++ cs) n
  Covered-append a m b x e n c out cs tiles one = record {
    tiles = Tiles-append P a m b out cs one.tiles tiles;
    count = omega (arith, one.count, seconds-append out cs);
    exact = λ t. covers-append out cs t ∙ ground (arith, one.exact t);
  }

  pub visit_inside-Covered :
      (a x e : ℕ) (c : Interval)
      → c.start ≡ suc a
      → P x
      → P e
      → P c.end
      → a ≤ x
      → suc x < e
      → e ≤ c.end
      → (out : List Interval) × (n : ℕ) × (visit_inside (suc x) e c ≡ leave out n)
        × Covered P a c.end (suc x) e (c ∷ []) out n
  unfolding visit_inside
  visit_inside-Covered a x e c from px pe pc first new last =
      let px' : P (suc x - 1) = subst P (omega arith) px in
      elim (Bool-cases c.covered) [
        | inl old ↦ (
          c ∷ [],
          0,
          rw old refl,
          record {
            tiles = (from, omega arith, pc, refl);
            count = omega arith;
            exact = λ t. ground (arith, old, from);
          },
        )
        | inr fresh ↦ elim (ℕ_discrete x a) [
          | yes left ↦ elim (ℕ_discrete e c.end) [
            | yes right ↦ (
              interval true c.start c.end ∷ [],
              e + 1 - suc x,
              ground (arith, fresh, from, left, right),
              record {
                tiles = (from, omega arith, pc, refl);
                count = ground (arith, fresh, from, left, right);
                exact = λ t. ground (arith, fresh, from, left, right);
              },
            )
            | no right ↦ (
              interval true c.start e ∷ interval false (e + 1) c.end ∷ [],
              e + 1 - suc x,
              ground (arith, fresh, from, left, right),
              record {
                tiles = (from, omega arith, pe, (omega arith, omega arith, pc, refl));
                count = ground (arith, fresh, from, left, right);
                exact = λ t. ground (arith, fresh, from, left, right);
              },
            )
          ]
          | no left ↦ elim (ℕ_discrete e c.end) [
            | yes right ↦ (
              interval false c.start (suc x - 1) ∷ interval true (suc x) c.end ∷ [],
              e + 1 - suc x,
              ground (arith, fresh, from, left, right),
              record {
                tiles = (from, omega arith, px', (omega arith, omega arith, pc, refl));
                count = ground (arith, fresh, from, left, right);
                exact = λ t. ground (arith, fresh, from, left, right);
              },
            )
            | no right ↦ (
              interval false c.start (suc x - 1)
                  ∷ interval true (suc x) e
                  ∷ interval false (e + 1) c.end
                  ∷ [],
              e + 1 - suc x,
              ground (arith, fresh, from, left, right),
              record {
                tiles = (
                  from,
                  omega arith,
                  px',
                  (omega arith, omega arith, pe, (omega arith, omega arith, pc, refl)),
                );
                count = ground (arith, fresh, from, left, right);
                exact = λ t. ground (arith, fresh, from, left, right);
              },
            )
          ]
        ]
      ]
