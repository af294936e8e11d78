-- ===== src/Daemon/Queue/Refine.antt =====
-- The linked items stand for a list.
use rrdtool_1_x.Prelude.{
  ℕ, ◌-◌, ◌≡◌, refl, sym, inl, inr, true, false, some, List, [], ◌∷◌, ◌++◌, arith, ◌==◌,
  if◌then◌else◌, length, length-append, Bool-cases,
}
use mathlib.Core.Path.{subst}
use rrdtool_1_x.Daemon.Queue.{
  CacheQueue, is_null, unlink, remove_from_queue, queued, push_head, push_tail,
}
use rrdtool_1_x.Daemon.Queue.Order.{
  has, Distinct, first, last, next_of, prev_of, remove, has-remove, remove-absent, remove-Distinct,
  length-remove, prev_of-absent,
}
use rrdtool_1_x.Daemon.Queue.Links.{
  link, next_of-snoc, prev_of-snoc, first-remove, next_of-remove, is_null-prev_of, is_null-next_of,
  prev_of-remove, last-remove, last-cons, has-snoc, snoc-Distinct, first-snoc, last-snoc,
}

-- The items in the queue are `xs`, each once, in this order; the others are not linked. Item `i` has
-- the values `values i`.
pub record Queues (values : ℕ → List (List ℕ)) (q : CacheQueue) (xs : List ℕ) : Type 0 where
  pub distinct : Distinct xs
  pub from : q.head ≡ first xs
  pub to : q.tail ≡ last xs
  pub nexts : (i : ℕ) → (q.item i).next ≡ next_of i xs
  pub prevs : (i : ℕ) → (q.item i).prev ≡ prev_of i xs
  pub flags : (i : ℕ) → (q.item i).in_queue ≡ has i xs
  pub holds : (i : ℕ) → (q.item i).values ≡ values i
  pub size : q.stats_queue_length ≡ length xs

module _ (values : ℕ → List (List ℕ)) (q : CacheQueue) (xs : List ℕ) (h : Queues values q xs) where
  module _ (ci : ℕ) where
    unlink-Queues :
        has ci xs ≡ true
        → Queues values
            (record (unlink ci q) { stats_queue_length = q.stats_queue_length - 1 })
            (remove ci xs)
    unfolding unlink
    unlink-Queues inside = record {
      distinct = remove-Distinct ci xs h.distinct;
      from = ground (
        arith,
        h.prevs ci,
        h.nexts ci,
        h.from,
        first-remove ci xs h.distinct,
        is_null-prev_of ci xs h.distinct inside,
      );
      to = ground (
        arith,
        h.prevs ci,
        h.nexts ci,
        h.to,
        last-remove ci xs h.distinct,
        is_null-next_of ci xs h.distinct inside,
      );
      nexts = λ j. ground (
        arith,
        h.prevs ci,
        h.nexts ci,
        h.nexts j,
        next_of-remove ci j xs h.distinct,
        link ci j xs h.distinct,
      );
      prevs = λ j. ground (
        arith,
        h.prevs ci,
        h.nexts ci,
        h.prevs j,
        prev_of-remove ci j xs h.distinct,
        link j ci xs h.distinct,
      );
      flags = λ j. ground (arith, h.flags j, has-remove ci j xs);
      holds = λ j. ground (arith, h.holds j);
      size = omega (arith, h.size, length-remove ci xs h.distinct inside);
    }

    pub remove_from_queue-Queues :
        (q' : CacheQueue) × (remove_from_queue ci q ≡ some q') × Queues values q' (remove ci xs)
    unfolding remove_from_queue
    remove_from_queue-Queues = elim (Bool-cases (has ci xs)) [
      | inl inside ↦
          let some_left : (q.stats_queue_length == 0) ≡ false =
            ground (arith, h.size, length-remove ci xs h.distinct inside) in
          (
            record (unlink ci q) { stats_queue_length = q.stats_queue_length - 1 },
            rw (h.flags ci, inside, some_left) refl,
            unlink-Queues inside,
          )
      | inr outside ↦ (
        q,
        rw (h.flags ci, outside) refl,
        subst (Queues values q) (sym (remove-absent ci xs outside)) h,
      )
    ]

    pub push_head-Queues : has ci xs ≡ false → Queues values (queued ci (push_head ci q)) (ci ∷ xs)
    unfolding push_head
    push_head-Queues outside = record {
      distinct = (outside, h.distinct);
      from = refl;
      to = head_to xs h.to;
      nexts = λ j. ground (arith, h.nexts j, h.from);
      prevs = λ j. ground (arith, h.prevs j, h.from, prev_of-absent ci xs outside);
      flags = λ j. ground (arith, h.flags j);
      holds = λ j. ground (arith, h.holds j);
      size = omega (arith, h.size);
    }
      where
        head_to :
            (ys : List ℕ)
            → q.tail ≡ last ys
            → (if is_null q.tail then some ci else q.tail) ≡ last (ci ∷ ys)
        head_to ys e = rw e (sym (last-cons ci ys))

    pub push_tail-Queues :
        has ci xs ≡ false → Queues values (queued ci (push_tail ci q)) (xs ++ (ci ∷ []))
    unfolding push_tail
    push_tail-Queues outside = record {
      distinct = snoc-Distinct ci xs h.distinct outside;
      from = ground (arith, h.from, h.to, first-snoc ci xs);
      to = sym (last-snoc ci xs);
      nexts = λ j. ground (arith, h.nexts j, h.to, next_of-snoc ci j xs h.distinct outside);
      prevs = λ j. ground (arith, h.prevs j, h.to, prev_of-snoc ci j xs outside);
      flags = λ j. ground (arith, h.flags j, has-snoc ci j xs);
      holds = λ j. ground (arith, h.holds j);
      size = omega (arith, h.size, length-append xs (ci ∷ []));
    }
