-- ===== src/Daemon/Queue/Run/Kept.antt =====
-- No value is lost or written twice.
use rrdtool_1_x.Prelude.{
  ℕ, ◌≡◌, refl, sym, ap, ◌∙◌, inl, inr, false, List, [], ◌∷◌, ◌++◌, arith, ◌==◌, if◌then◌else◌,
  Bool-cases, some,
}
use mathlib.Core.List.{append-nil, append_assoc}
use rrdtool_1_x.Daemon.Queue.{CacheQueue}
use rrdtool_1_x.Daemon.Queue.Run.{
  Written, CacheCall, update, enqueue, dequeue, wrote, write, run_calls, Waiting, list_call,
  list_calls,
}
use rrdtool_1_x.Daemon.Queue.Run.Step.{Waits, run_calls-Waits}

-- the values written for an item, in order
abbrev pub written_for : ℕ → Written → List (List ℕ)
written_for i [] = []
written_for i ((j, vs) ∷ out) = let rest = written_for i out in if j == i then vs ++ rest else rest

-- the values that come in for an item
abbrev pub updates_for : ℕ → List CacheCall → List (List ℕ)
updates_for i [] = []
updates_for i (update j v ∷ cs) = let rest = updates_for i cs in if j == i then v ∷ rest else rest
updates_for i (enqueue j side ∷ cs) = updates_for i cs
updates_for i (dequeue j ∷ cs) = updates_for i cs
updates_for i (wrote j ∷ cs) = updates_for i cs
updates_for i (write ∷ cs) = updates_for i cs

-- no call drops the values of the item
abbrev pub Undropped : ℕ → List CacheCall → Type 0
Undropped i [] = Unit {0}
Undropped i (update j v ∷ cs) = Undropped i cs
Undropped i (enqueue j side ∷ cs) = Undropped i cs
Undropped i (dequeue j ∷ cs) = Undropped i cs
Undropped i (wrote j ∷ cs) = ((j == i) ≡ false) × Undropped i cs
Undropped i (write ∷ cs) = Undropped i cs

written_for-append :
    (i : ℕ) (a b : Written) → written_for i (a ++ b) ≡ written_for i a ++ written_for i b
written_for-append i [] b = refl
written_for-append i ((j, vs) ∷ a) b = elim (Bool-cases (j == i)) [
  | inl same ↦ rw same (
      ap (λ ys. vs ++ ys) (written_for-append i a b)
      ∙ sym (append_assoc vs (written_for i a) (written_for i b)))
  | inr other ↦ rw other (written_for-append i a b)
]

-- what is written for the item and what it still holds
abbrev all_of : ℕ → Waiting × Written → List (List ℕ)
all_of i ((values, xs), out) = written_for i out ++ values i

all_of-call :
    (i : ℕ) (c : CacheCall) (w : Waiting)
    → Undropped i (c ∷ [])
    → all_of i (list_call c w) ≡ w.0 i ++ updates_for i (c ∷ [])
all_of-call i (update j v) (values, xs) h = elim (Bool-cases (j == i)) [
  | inl same ↦ let e : j ≡ i = ground (arith, same) in rw same (ap (λ k. values k ++ (v ∷ [])) e)
  | inr other ↦ rw other (sym (append-nil (values i)))
]
all_of-call i (enqueue j side) (values, xs) h = sym (append-nil (values i))
all_of-call i (dequeue j) (values, xs) h = sym (append-nil (values i))
all_of-call i (wrote j) (values, xs) h = rw (h.0) (sym (append-nil (values i)))
all_of-call i write (values, []) h = sym (append-nil (values i))
all_of-call i write (values, x ∷ xs) h = elim (Bool-cases (x == i)) [
  | inl same ↦
      let e : x ≡ i = ground (arith, same) in
      rw same (ap (λ ys. ys ++ []) (append-nil (values x) ∙ ap values e))
  | inr other ↦ rw other (sym (append-nil (values i)))
]

Undropped-head :
    (i : ℕ) (c : CacheCall) (cs : List CacheCall)
    → Undropped i (c ∷ cs)
    → Undropped i (c ∷ []) × Undropped i cs
Undropped-head i (update j v) cs h = (tt, h)
Undropped-head i (enqueue j side) cs h = (tt, h)
Undropped-head i (dequeue j) cs h = (tt, h)
Undropped-head i (wrote j) cs h = ((h.0, tt), h.1)
Undropped-head i write cs h = (tt, h)

updates_for-cons :
    (i : ℕ) (c : CacheCall) (cs : List CacheCall)
    → updates_for i (c ∷ cs) ≡ updates_for i (c ∷ []) ++ updates_for i cs
updates_for-cons i (update j v) cs = ground arith
updates_for-cons i (enqueue j side) cs = refl
updates_for-cons i (dequeue j) cs = refl
updates_for-cons i (wrote j) cs = refl
updates_for-cons i write cs = refl

all_of-calls :
    (i : ℕ) (cs : List CacheCall) (w : Waiting)
    → Undropped i cs
    → all_of i (list_calls cs w) ≡ w.0 i ++ updates_for i cs
all_of-calls i [] w h = sym (append-nil (w.0 i))
all_of-calls i (c ∷ cs) w h =
    let (now, later) = Undropped-head i c cs h in
    let r : Waiting × Written = list_call c w in
    let s : Waiting × Written = list_calls cs r.0 in
    let first = written_for i r.1 in
    let rest = updates_for i cs in
    ap (λ ys. ys ++ s.0.0 i) (written_for-append i r.1 s.1)
    ∙ append_assoc first (written_for i s.1) (s.0.0 i)
    ∙ ap (λ ys. first ++ ys) (all_of-calls i cs r.0 later)
    ∙ sym (append_assoc first (r.0.0 i) rest)
    ∙ ap (λ ys. ys ++ rest) (all_of-call i c w now)
    ∙ append_assoc (w.0 i) (updates_for i (c ∷ [])) rest
    ∙ ap (λ ys. w.0 i ++ ys) (sym (updates_for-cons i c cs))

-- Let the linked items stand for a list of waiting items, each with values. After any calls on the
-- queue of which none drops the values of an item, the values taken to be written for that item,
-- followed by those that it still holds, are those that it held at first, followed by those that were
-- added, in the order in which they came: none is lost and none is written twice.
pub run_calls-kept :
    (i : ℕ) (cs : List CacheCall) (w : Waiting) (q : CacheQueue)
    → Waits w q
    → Undropped i cs
    → (q' : CacheQueue) × (out : Written) × (run_calls cs q ≡ some (q', out))
      × (written_for i out ++ (q'.item i).values ≡ (q.item i).values ++ updates_for i cs)
run_calls-kept i cs w q h undropped =
    let (q', e, h') = run_calls-Waits cs w q h in
    let out = (list_calls cs w).1 in
    (
      q',
      out,
      e,
      ap (λ ys. written_for i out ++ ys) (h'.0.holds i)
          ∙ all_of-calls i cs w undropped
          ∙ ap (λ ys. ys ++ updates_for i cs) (sym (h.0.holds i)),
    )
