-- ===== src/Daemon/Queue/Run.antt =====
-- Calls on the queue, one after another.
pub mod Step
pub mod Kept
use rrdtool_1_x.Prelude.{
  ℕ, Bool, true, false, not, Option, none, some, ◌>>=◌, List, [], ◌∷◌, ◌++◌, ◌==◌, if◌then◌else◌,
  length,
}
use rrdtool_1_x.Daemon.Queue.{
  CacheQueue, QueueSide, at_head, at_tail, remove_from_queue, enqueue_cache_item, add_value,
  handle_request_wrote, take_first,
}
use rrdtool_1_x.Daemon.Queue.Order.{has, remove}

-- items with the values to be written
abbrev pub Written : Type 0
Written = List (ℕ × List (List ℕ))

-- what the threads of the daemon do under `cache_lock`
pub data CacheCall : Type 0 where
  update : ℕ → List ℕ → CacheCall
  enqueue : ℕ → QueueSide → CacheCall
  dequeue wrote : ℕ → CacheCall
  write : CacheCall

abbrev pub silent : Option CacheQueue → Option (CacheQueue × Written)
silent result = result >>= λ q. some (q, [])

abbrev pub run_call : CacheCall → CacheQueue → Option (CacheQueue × Written)
run_call (update ci v) q = silent (some (add_value ci v q))
run_call (enqueue ci side) q = silent (enqueue_cache_item ci side q)
run_call (dequeue ci) q = silent (remove_from_queue ci q)
run_call (wrote ci) q = silent (handle_request_wrote ci q)
run_call write q = take_first q

abbrev pub run_calls : List CacheCall → CacheQueue → Option (CacheQueue × Written)
run_calls [] q = some (q, [])
run_calls (c ∷ cs) q = run_call c q >>= λ r. run_calls cs r.0 >>= λ s. some (s.0, r.1 ++ s.1)

-- The values of each item, and the items that wait, in order.
abbrev pub Waiting : Type 0
Waiting = (ℕ → List (List ℕ)) × List ℕ

abbrev pub with_values : ℕ → List (List ℕ) → (ℕ → List (List ℕ)) → ℕ → List (List ℕ)
with_values ci vs values j = if ci == j then vs else values j

abbrev pub list_enqueue : ℕ → QueueSide → List ℕ → List ℕ
list_enqueue ci at_head xs = ci ∷ remove ci xs
list_enqueue ci at_tail xs = if has ci xs then xs else xs ++ (ci ∷ [])

abbrev pub list_write : (ℕ → List (List ℕ)) → List ℕ → Waiting × Written
list_write values [] = ((values, []), [])
list_write values (x ∷ xs) = ((with_values x [] values, xs), (x, values x) ∷ [])

-- an item without values is not put into the queue, and one at the tail is not put back
abbrev pub list_call : CacheCall → Waiting → Waiting × Written
list_call (update ci v) (values, xs) = ((with_values ci (values ci ++ (v ∷ [])) values, xs), [])
list_call (enqueue ci side) (values, xs) =
    ((values, if length (values ci) == 0 then xs else list_enqueue ci side xs), [])
list_call (dequeue ci) (values, xs) = ((values, remove ci xs), [])
list_call (wrote ci) (values, xs) = ((with_values ci [] values, remove ci xs), [])
list_call write (values, xs) = list_write values xs

abbrev pub list_calls : List CacheCall → Waiting → Waiting × Written
list_calls [] w = (w, [])
list_calls (c ∷ cs) w = let r = list_call c w in let s = list_calls cs r.0 in (s.0, r.1 ++ s.1)
