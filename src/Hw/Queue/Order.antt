-- ===== src/Hw/Queue/Order.antt =====
-- The queue against a list: first in, first out.
use rrdtool_1_x.Prelude.{
  ◌>>=◌, ℕ, zero, suc, ◌+◌, ◌-◌, ◌%◌, ◌≤◌, ◌<◌, ◌≡◌, refl, sym, ap, ◌∙◌, ◌≢◌, inl, inr, Option,
  none, some, List, [], ◌∷◌, ◌++◌, arith, ltb, ◌==◌, if◌then◌else◌, length, length-append,
  length-set, get_elem?, get_elem?-set_self, get_elem?-set_ne, set, lt→ltb, ltb→lt, Bool-cases,
  >>=-elim, some_inj,
}
use mathlib.Core.Path.{subst}
use native.Mathlib.Nat.{mod-lt, mod-eq_of_lt, mod_self}
use native.Mathlib.Decide.{dec_lt, ℕ_discrete}
use rrdtool_1_x.Hw.Queue.{FifoQueue, queue_alloc, queue_isempty, queue_push, queue_pop}

-- the place `i` after `s`, round a ring of `n`
abbrev pub place_after : ℕ → ℕ → ℕ → ℕ
place_after n s i = if ltb (s + i) n then s + i else s + i - n

place_after-lt : (n s i : ℕ) → s < n → i ≤ n → place_after n s i < n
place_after-lt n s i h k = ground arith

suc-place : (n s : ℕ) → s < n → suc s % n ≡ place_after n s 1
suc-place n s h = elim (dec_lt (s + 1) n) [
  | yes p ↦ rw (lt→ltb (s + 1) n p) (mod-eq_of_lt {n = suc s} {m = n} (omega arith) ∙ omega arith)
  | no p ↦
      let last : suc s ≡ n = omega arith in
      let zero_left : place_after n s 1 ≡ 0 = ground arith in
      ap (λ k. k % n) last ∙ mod_self n ∙ sym zero_left
]

place_after-place :
    (n s i : ℕ) → s < n → suc i ≤ n → place_after n (place_after n s i) 1 ≡ place_after n s (suc i)
place_after-place n s i h k = ground arith

place-place_after :
    (n s i : ℕ) → s < n → suc i ≤ n → place_after n (place_after n s 1) i ≡ place_after n s (suc i)
place-place_after n s i h k = ground arith

place_after-ne : (n s i j : ℕ) → s < n → i < j → j < n → place_after n s j ≢ place_after n s i
place_after-ne n s i j h k l e = ground (arith, e)

get_elem?-append_left :
    {D : Type 0} (xs ys : List D) (i : ℕ) → i < length xs → get_elem? (xs ++ ys) i ≡ get_elem? xs i
get_elem?-append_left [] ys i h = elim h [ ]
get_elem?-append_left (x ∷ xs) ys zero h = refl
get_elem?-append_left (x ∷ xs) ys (suc i) h = get_elem?-append_left xs ys i (omega arith)

get_elem?-append_last :
    {D : Type 0} (xs : List D) (v : D) → get_elem? (xs ++ (v ∷ [])) (length xs) ≡ some v
get_elem?-append_last [] v = refl
get_elem?-append_last (x ∷ xs) v = get_elem?-append_last xs v

module _ {D : Type 0} where
  abbrev start : FifoQueue D → ℕ
  start q = q.head % q.capacity

  -- The queue holds a list, its oldest value first.
  pub record Holds (q : FifoQueue D) (xs : List D) : Type 0 where
    pub memory : length q.queue ≡ q.capacity
    pub some_room : 0 < q.capacity
    pub fits : length xs ≤ q.capacity
    pub end : q.tail ≡ place_after q.capacity (start q) (length xs)
    pub values :
        (i : ℕ)
        → i < length xs
        → get_elem? q.queue (place_after q.capacity (start q) i) ≡ get_elem? xs i

  pub queue_alloc-Holds :
      (memory : List D) (capacity : ℕ)
      → length memory ≡ capacity
      → 0 < capacity
      → Holds (queue_alloc memory capacity) []
  unfolding queue_alloc
  queue_alloc-Holds memory capacity size pos = record {
    memory = size;
    some_room = pos;
    fits = omega arith;
    end = rw (mod_self capacity) (ground arith);
    values = λ i h. elim h [ ];
  }

  queue_pop-Holds :
      (q : FifoQueue D) (x : D) (xs : List D)
      → Holds q (x ∷ xs)
      → (q' : FifoQueue D) × (queue_pop q ≡ some (x, q')) × Holds q' xs × (q'.capacity ≡ q.capacity)
  unfolding queue_pop
  queue_pop-Holds q x xs h =
      let n = q.capacity in
      let inside : start q < n = mod-lt q.head h.some_room in
      let few : suc (length xs) ≤ n = h.fits in
      let first : get_elem? q.queue (start q) ≡ some x =
        ap (get_elem? q.queue) (ground arith) ∙ h.values 0 (omega arith) in
      let moved = suc-place n (start q) inside in
      (
        record q { head = suc (start q) },
        rw first refl,
        record {
          memory = h.memory;
          some_room = h.some_room;
          fits = omega (arith, few);
          end =
              h.end
              ∙ sym (
                  ap (λ s. place_after n s (length xs)) moved
                  ∙ place-place_after n (start q) (length xs) inside few);
          values = λ i l.
              ap (get_elem? q.queue) (
                ap (λ s. place_after n s i) moved
                ∙ place-place_after n (start q) i inside (omega (arith, few, l)))
              ∙ h.values (suc i) (omega arith);
        },
        refl,
      )

  queue_push-Holds :
      (q : FifoQueue D) (v : D) (xs : List D)
      → Holds q xs
      → length xs < q.capacity
      → (q' : FifoQueue D) × (queue_push q v ≡ some q')
        × Holds q' (xs ++ (v ∷ []))
        × (q'.capacity ≡ q.capacity)
  unfolding queue_push
  queue_push-Holds q v xs h few =
      let n = q.capacity in
      let inside : start q < n = mod-lt q.head h.some_room in
      let tail_inside : q.tail < n =
        omega (arith, h.end, place_after-lt n (start q) (length xs) inside h.fits) in
      let longer = length-append xs (v ∷ []) in
      (
        record q { queue = set q.queue q.tail v; tail = suc q.tail % n },
        rw (lt→ltb q.tail (length q.queue) (omega (arith, tail_inside, h.memory))) refl,
        record {
          memory = length-set q.queue q.tail v ∙ h.memory;
          some_room = h.some_room;
          fits = omega (arith, longer, few);
          end =
              suc-place n q.tail tail_inside
              ∙ ap (λ t. place_after n t 1) h.end
              ∙ place_after-place n (start q) (length xs) inside few
              ∙ ap (place_after n (start q)) (omega (arith, longer));
          values = λ i l. elim (ℕ_discrete i (length xs)) [
            | yes e ↦ rw e (
                ap (get_elem? (set q.queue q.tail v)) (sym h.end)
                ∙ get_elem?-set_self q.queue q.tail v (omega (arith, tail_inside, h.memory))
                ∙ sym (get_elem?-append_last xs v))
            | no ne ↦
                let earlier : i < length xs = omega (arith, l, longer, ne) in
                get_elem?-set_ne q.queue v
                  (λ e. place_after-ne n (start q) i (length xs) inside earlier few (sym h.end ∙ e))
                ∙ h.values i earlier
                ∙ sym (get_elem?-append_left xs (v ∷ []) i earlier)
          ];
        },
        refl,
      )

  queue_isempty-Holds :
      (q : FifoQueue D) (xs : List D)
      → Holds q xs
      → length xs < q.capacity
      → queue_isempty q ≡ (length xs == 0)
  unfolding queue_isempty
  queue_isempty-Holds q xs h few =
      let inside : start q < q.capacity = mod-lt q.head h.some_room in
      rw h.end (ground (arith, inside, few))

-- a call of `queue_push` or `queue_pop`
pub data QueueOp (D : Type 0) : Type 0 where
  pushing : D → QueueOp D
  popping : QueueOp D

module _ {D : Type 0} where
  -- what is popped, and the queue at the end
  unfoldable pub run_queue : List (QueueOp D) → FifoQueue D → Option (List D × FifoQueue D)
  run_queue [] q = some ([], q)
  run_queue (pushing v ∷ ops) q = do q' ← queue_push q v; run_queue ops q'
  run_queue (popping ∷ ops) q = do
    (x, q') ← queue_pop q
    (xs, last) ← run_queue ops q'
    some (x ∷ xs, last)

  -- the same on a list of at most `capacity` values; `none` is a push to a full one, or a pop from an
  -- empty one
  unfoldable pub run_list : ℕ → List (QueueOp D) → List D → Option (List D × List D)
  run_list capacity [] xs = some ([], xs)
  run_list capacity (pushing v ∷ ops) xs =
      let rest = run_list capacity ops (xs ++ (v ∷ [])) in
      if ltb (length xs) capacity then rest else none
  run_list capacity (popping ∷ ops) [] = none
  run_list capacity (popping ∷ ops) (x ∷ xs) = do
    (out, last) ← run_list capacity ops xs
    some (x ∷ out, last)

  -- A queue that holds a list does what the list does, over any pushes and pops of which the list
  -- never takes more than the capacity nor gives more than it has: it pops the same values, oldest
  -- first, and holds the list that is left.
  pub run_queue-Holds :
      (ops : List (QueueOp D)) (q : FifoQueue D) (xs : List D) {out ys : List D}
      → Holds q xs
      → run_list q.capacity ops xs ≡ some (out, ys)
      → (q' : FifoQueue D) × (run_queue ops q ≡ some (out, q')) × Holds q' ys
  unfolding run_queue run_list
  run_queue-Holds [] q xs h e =
      (q, ap (λ t. some (t.0, q)) (some_inj e), subst (Holds q) (ap (λ t. t.1) (some_inj e)) h)
  run_queue-Holds (pushing v ∷ ops) q xs {out} {ys} h e =
      elim (Bool-cases (ltb (length xs) q.capacity)) [
        | inl room ↦
            let e' = rw room at e in
            let (q1, ran, held, same) =
              queue_push-Holds q v xs h (ltb→lt (length xs) q.capacity room) in
            let (q', rest, final) =
              run_queue-Holds ops q1 (xs ++ (v ∷ [])) {out = out} {ys = ys} held (rw same e') in
            (q', rw ran rest, final)
        | inr full ↦ let e' = rw full at e in cc
      ]
  run_queue-Holds (popping ∷ ops) q [] h e = cc
  run_queue-Holds (popping ∷ ops) q (x ∷ xs) {out} {ys} h e =
      let (q1, ran, held, same) = queue_pop-Holds q x xs h in
      >>=-elim (run_list q.capacity ops xs) _ e λ r e1 e2.
        let (q', rest, final) =
          run_queue-Holds ops q1 xs {out = r.0} {ys = r.1} held (rw same e1) in
        (
          q',
          rw (ran, rest) (ap (λ t. some (t.0, q')) (some_inj e2)),
          subst (Holds q') (ap (λ t. t.1) (some_inj e2)) final,
        )
