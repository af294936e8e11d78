-- ===== src/Daemon/Queue/Run/Step.antt =====
-- Each call does on the linked items what it does on the list.
use rrdtool_1_x.Prelude.{
  ◌>>=◌, ℕ, ◌≡◌, refl, sym, ap, ◌∙◌, inl, inr, true, false, Option, none, some, List, [], ◌∷◌, ◌++◌,
  arith, ◌==◌, if◌then◌else◌, length, length-append, Bool-cases, if_true, if_false,
}
use mathlib.Core.Path.{subst}
use rrdtool_1_x.Daemon.Queue.{
  CacheQueue, QueueSide, at_head, at_tail, is_at, set_values, remove_from_queue, queued, push_head,
  push_tail, enqueue_at_head, enqueue_at_tail, enqueue_cache_item, add_value, wipe_ci_values,
  handle_request_wrote, take_item, take_first,
}
use rrdtool_1_x.Daemon.Queue.Order.{
  has, Distinct, first, remove, has-remove, remove-absent, next_of-absent, prev_of-absent,
}
use rrdtool_1_x.Daemon.Queue.Links.{has-snoc}
use rrdtool_1_x.Daemon.Queue.Refine.{
  Queues, remove_from_queue-Queues, push_head-Queues, push_tail-Queues,
}
use rrdtool_1_x.Daemon.Queue.Run.{
  Written, CacheCall, update, enqueue, dequeue, wrote, write, silent, run_call, Waiting,
  with_values, list_enqueue, list_call, run_calls, list_calls,
}

-- The queue stands for the items that wait, and each of them has values.
abbrev pub Waits : Waiting → CacheQueue → Type 0
Waits (values, xs) q =
    Queues values q xs × ((i : ℕ) → has i xs ≡ true → (length (values i) == 0) ≡ false)

-- The call succeeds, the queue stands for `r`, and what is written is that of `r`.
abbrev pub Gives : Waiting × Written → Option (CacheQueue × Written) → Type 0
Gives (w, out) result = (q' : CacheQueue) × (result ≡ some (q', out)) × Waits w q'

set_values-Queues :
    (values : ℕ → List (List ℕ)) (q : CacheQueue) (xs : List ℕ) (ci : ℕ) (vs : List (List ℕ))
    → Queues values q xs
    → Queues (with_values ci vs values) (record q { item = set_values ci vs q.item }) xs
set_values-Queues values q xs ci vs h = record {
  distinct = h.distinct;
  from = h.from;
  to = h.to;
  nexts = λ j. ground (arith, h.nexts j);
  prevs = λ j. ground (arith, h.prevs j);
  flags = λ j. ground (arith, h.flags j);
  holds = λ j. ground (arith, h.holds j);
  size = h.size;
}

-- `remove_from_queue` after `wipe_ci_values`
wiped-Queues :
    (values : ℕ → List (List ℕ)) (q : CacheQueue) (xs : List ℕ) (ci : ℕ)
    → Queues values q xs
    → (q' : CacheQueue) × (remove_from_queue ci (wipe_ci_values ci q) ≡ some q')
      × Queues (with_values ci [] values) q' (remove ci xs)
unfolding wipe_ci_values
wiped-Queues values q xs ci h =
    remove_from_queue-Queues (with_values ci [] values)
      (record q { item = set_values ci [] q.item }) xs (set_values-Queues values q xs ci [] h) ci

first_again :
    (ci : ℕ) (xs : List ℕ) → Distinct xs → is_at (first xs) ci ≡ true → ci ∷ remove ci xs ≡ xs
first_again ci [] d h = cc
first_again ci (x ∷ xs) d h = ground (arith, d, h, remove-absent ci xs)

enqueue_at_head-other :
    (ci : ℕ) (q q' : CacheQueue)
    → is_at q.head ci ≡ false
    → remove_from_queue ci q ≡ some q'
    → enqueue_at_head ci q ≡ some (queued ci (push_head ci q'))
unfolding enqueue_at_head
enqueue_at_head-other ci q q' elsewhere removed =
    if_false (some q) (remove_from_queue ci q >>= λ p. some (queued ci (push_head ci p))) elsewhere
    ∙ ap (λ r. r >>= λ p. some (queued ci (push_head ci p))) removed

enqueue_at_head-Queues :
    (values : ℕ → List (List ℕ)) (q : CacheQueue) (xs : List ℕ) (ci : ℕ)
    → Queues values q xs
    → (q' : CacheQueue) × (enqueue_at_head ci q ≡ some q') × Queues values q' (ci ∷ remove ci xs)
unfolding enqueue_at_head
enqueue_at_head-Queues values q xs ci h = elim (Bool-cases (is_at (first xs) ci)) [
  | inl there ↦ (
    q,
    if_true (some q) (remove_from_queue ci q >>= λ p. some (queued ci (push_head ci p)))
        (ap (λ p. is_at p ci) h.from ∙ there),
    subst (Queues values q) (sym (first_again ci xs h.distinct there)) h,
  )
  | inr elsewhere ↦
      let (q', removed, h') = remove_from_queue-Queues values q xs h ci in
      (
        queued ci (push_head ci q'),
        enqueue_at_head-other ci q q' (ap (λ p. is_at p ci) h.from ∙ elsewhere) removed,
        push_head-Queues values q' (remove ci xs) h' ci (ground (arith, has-remove ci ci xs)),
      )
]

enqueue_at_tail-Queues :
    (values : ℕ → List (List ℕ)) (q : CacheQueue) (xs : List ℕ) (ci : ℕ)
    → Queues values q xs
    → (q' : CacheQueue) × (enqueue_at_tail ci q ≡ some q')
      × Queues values q' (if has ci xs then xs else xs ++ (ci ∷ []))
unfolding enqueue_at_tail
enqueue_at_tail-Queues values q xs ci h = elim (Bool-cases (has ci xs)) [
  | inl inside ↦ (q, rw (h.flags ci, inside) refl, rw inside h)
  | inr outside ↦ (
    queued ci (push_tail ci q),
    rw
        (
          h.flags ci,
          outside,
          h.nexts ci,
          next_of-absent ci xs outside,
          h.prevs ci,
          prev_of-absent ci xs outside,
        )
        refl,
    rw outside (push_tail-Queues values q xs h ci outside),
  )
]

add_value-Gives :
    (values : ℕ → List (List ℕ)) (xs : List ℕ) (q : CacheQueue) (ci : ℕ) (v : List ℕ)
    → Waits (values, xs) q
    → Gives (list_call (update ci v) (values, xs)) (run_call (update ci v) q)
unfolding add_value
add_value-Gives values xs q ci v (h, filled) = (
  add_value ci v q,
  refl,
  (
    rw (h.holds ci) (set_values-Queues values q xs ci (values ci ++ (v ∷ [])) h),
    λ i inside. ground (arith, filled i inside, length-append (values ci) (v ∷ [])),
  ),
)

silently :
    {result : Option CacheQueue} {w : Waiting}
    → (q' : CacheQueue) × (result ≡ some q') × Waits w q'
    → Gives (w, []) (silent result)
silently (q', e, h) = (q', ap silent e, h)

enqueue_cache_item-Gives :
    (values : ℕ → List (List ℕ)) (xs : List ℕ) (q : CacheQueue) (ci : ℕ) (side : QueueSide)
    → Waits (values, xs) q
    → Gives (list_call (enqueue ci side) (values, xs)) (run_call (enqueue ci side) q)
unfolding enqueue_cache_item
enqueue_cache_item-Gives values xs q ci side (h, filled) =
    elim (Bool-cases (length (values ci) == 0)) [
      | inl empty ↦ rw (h.holds ci, empty) (q, refl, (h, filled))
      | inr some_values ↦ rw (h.holds ci, some_values) (silently (at some_values side))
    ]
  where
    at :
        (length (values ci) == 0) ≡ false
        → (side : QueueSide)
        → (q' : CacheQueue) × ((elim side [
          | at_head ↦ enqueue_at_head ci q
          | at_tail ↦ enqueue_at_tail ci q
        ])
            ≡ some q')
          × Waits (values, list_enqueue ci side xs) q'
    at some_values at_head =
        let (q', e, h') = enqueue_at_head-Queues values q xs ci h in
        (q', e, (h', λ i inside. head_filled i inside))
      where
        head_filled : (i : ℕ) → has i (ci ∷ remove ci xs) ≡ true → (length (values i) == 0) ≡ false
        head_filled i inside = elim (Bool-cases (ci == i)) [
          | inl same ↦ ground (arith, same, some_values)
          | inr other ↦ filled i (ground (arith, inside, other, has-remove ci i xs))
        ]
    at some_values at_tail =
        let (q', e, h') = enqueue_at_tail-Queues values q xs ci h in
        (q', e, (h', λ i inside. tail_filled i inside))
      where
        tail_filled :
            (i : ℕ)
            → has i (if has ci xs then xs else xs ++ (ci ∷ [])) ≡ true
            → (length (values i) == 0) ≡ false
        tail_filled i inside = elim (Bool-cases (ci == i)) [
          | inl same ↦ ground (arith, same, some_values)
          | inr other ↦ filled i (ground (arith, inside, other, has-snoc ci i xs))
        ]

wiped_filled :
    (values : ℕ → List (List ℕ)) (xs : List ℕ) (ci : ℕ)
    → ((i : ℕ) → has i xs ≡ true → (length (values i) == 0) ≡ false)
    → (i : ℕ) → has i (remove ci xs) ≡ true
    → (length (with_values ci [] values i) == 0) ≡ false
wiped_filled values xs ci filled i inside = elim (Bool-cases (ci == i)) [
  | inl same ↦ ground (arith, same, inside, has-remove ci i xs)
  | inr other ↦ rw other (filled i (ground (arith, inside, other, has-remove ci i xs)))
]

handle_request_wrote-Gives :
    (values : ℕ → List (List ℕ)) (xs : List ℕ) (q : CacheQueue) (ci : ℕ)
    → Waits (values, xs) q
    → Gives (list_call (wrote ci) (values, xs)) (run_call (wrote ci) q)
unfolding handle_request_wrote
handle_request_wrote-Gives values xs q ci (h, filled) =
    let (q', e, h') = wiped-Queues values q xs ci h in
    silently (q', e, (h', wiped_filled values xs ci filled))

take_first-some :
    (q q' : CacheQueue) (ci : ℕ) (vs : List (List ℕ))
    → q.head ≡ some ci
    → (q.item ci).values ≡ vs
    → (length vs == 0) ≡ false
    → remove_from_queue ci (wipe_ci_values ci q) ≡ some q'
    → take_first q ≡ some (q', (ci, vs) ∷ [])
unfolding take_first
take_first-some q q' ci vs from held filled removed =
    ap (λ p. elim p [ none ↦ some (q, []) | some i ↦ take_item i q ]) from
    ∙ if_false none
        (remove_from_queue ci (wipe_ci_values ci q) >>= λ p.
          some (p, (ci, (q.item ci).values) ∷ []))
        (ap (λ xs. length xs == 0) held ∙ filled)
    ∙ ap (λ r. r >>= λ p. some (p, (ci, (q.item ci).values) ∷ [])) removed
    ∙ ap (λ xs. some (q', (ci, xs) ∷ [])) held

take_first-Gives :
    (values : ℕ → List (List ℕ)) (xs : List ℕ) (q : CacheQueue)
    → Waits (values, xs) q
    → Gives (list_call write (values, xs)) (run_call write q)
unfolding take_first
take_first-Gives values [] q (h, filled) = (q, rw h.from refl, (h, filled))
take_first-Gives values (x ∷ xs) q (h, filled) =
    let (q', e, h') = wiped-Queues values q (x ∷ xs) x h in
    let gone : remove x (x ∷ xs) ≡ xs = ground (arith, h.distinct, remove-absent x xs) in
    (
      q',
      take_first-some q q' x (values x) h.from (h.holds x) (filled x (ground arith)) e,
      (
        subst (Queues (with_values x [] values) q') gone h',
        λ i inside. wiped_filled values (x ∷ xs) x filled i (ap (has i) gone ∙ inside),
      ),
    )

run_call-Gives :
    (c : CacheCall) (w : Waiting) (q : CacheQueue)
    → Waits w q
    → Gives (list_call c w) (run_call c q)
run_call-Gives (update ci v) (values, xs) q h = add_value-Gives values xs q ci v h
run_call-Gives (enqueue ci side) (values, xs) q h = enqueue_cache_item-Gives values xs q ci side h
run_call-Gives (dequeue ci) (values, xs) q (h, filled) =
    let (q', e, h') = remove_from_queue-Queues values q xs h ci in
    silently (q', e, (h', λ i inside. filled i (ground (arith, inside, has-remove ci i xs))))
run_call-Gives (wrote ci) (values, xs) q h = handle_request_wrote-Gives values xs q ci h
run_call-Gives write (values, xs) q h = take_first-Gives values xs q h

-- Let the linked items stand for a list of waiting items, each with values (`Waits`). Whatever calls
-- are then made on the queue, in any order (values that are added, an item put at the head or at the
-- tail or taken out, values that are dropped, the first item taken to be written), no `assert` fails,
-- what is taken to be written is what the same calls on the list give, and the linked items stand for
-- the list that they give.
pub run_calls-Waits :
    (cs : List CacheCall) (w : Waiting) (q : CacheQueue)
    → Waits w q
    → (q' : CacheQueue) × (run_calls cs q ≡ some (q', (list_calls cs w).1))
      × Waits (list_calls cs w).0 q'
run_calls-Waits [] w q h = (q, refl, h)
run_calls-Waits (c ∷ cs) w q h =
    let (q1, e, h1) = run_call-Gives c w q h in
    let r : Waiting × Written = list_call c w in
    let (q2, e', h2) = run_calls-Waits cs r.0 q1 h1 in
    (
      q2,
      ap (λ o. o >>= λ p. run_calls cs p.0 >>= λ s. some (s.0, p.1 ++ s.1)) e
          ∙ ap (λ o. o >>= λ s. some (s.0, r.1 ++ s.1)) e',
      h2,
    )
