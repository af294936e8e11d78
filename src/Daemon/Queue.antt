-- ===== src/Daemon/Queue.antt =====
-- The queue of files to be written of src/rrd_daemon.c: the items of the cache, linked both ways, with
-- `cache_queue_head` and `cache_queue_tail`. An item is a number, `none` is NULL, and `none` as a
-- result is a failed `assert`. The functions run under `cache_lock`.
pub mod Order
pub mod Links
pub mod Refine
pub mod Run
use rrdtool_1_x.Prelude.{
  ◌>>=◌, ℕ, suc, ◌-◌, Bool, true, false, not, Option, none, some, List, [], ◌∷◌, ◌++◌, ◌==◌,
  if◌then◌else◌, length,
}

-- the members of `cache_item_t` that the queue works on: `values_num` is the length of `values`, and
-- `in_queue` is CI_FLAGS_IN_QUEUE
pub record CacheItem : Type 0 where
  pub values : List (List ℕ)
  pub in_queue : Bool
  pub prev : Option ℕ
  pub next : Option ℕ

pub record CacheQueue : Type 0 where
  pub item : ℕ → CacheItem
  pub head : Option ℕ
  pub tail : Option ℕ
  pub stats_queue_length : ℕ

pub data QueueSide : Type 0 where
  at_head at_tail : QueueSide

-- `p == i`
abbrev pub is_at : Option ℕ → ℕ → Bool
is_at none i = false
is_at (some j) i = j == i

abbrev pub is_null : Option ℕ → Bool
is_null none = true
is_null (some i) = false

-- `p->next = v` and `p->prev = v`
abbrev pub set_next : Option ℕ → Option ℕ → (ℕ → CacheItem) → ℕ → CacheItem
set_next p v item i = if is_at p i then record (item i) { next = v } else item i

abbrev pub set_prev : Option ℕ → Option ℕ → (ℕ → CacheItem) → ℕ → CacheItem
set_prev p v item i = if is_at p i then record (item i) { prev = v } else item i

abbrev pub set_queued : ℕ → Bool → (ℕ → CacheItem) → ℕ → CacheItem
set_queued ci v item i = if ci == i then record (item i) { in_queue = v } else item i

-- out of the list
unfoldable pub unlink : ℕ → CacheQueue → CacheQueue
unlink ci q =
    let prev = (q.item ci).prev in
    let next = (q.item ci).next in
    record q {
      head = if is_null prev then next else q.head;
      tail = if is_null next then prev else q.tail;
      item = set_queued ci false (
          set_prev (some ci) none
            (set_next (some ci) none (set_prev next prev (set_next prev next q.item))));
    }

unfoldable pub remove_from_queue : ℕ → CacheQueue → Option CacheQueue
unfolding unlink
remove_from_queue ci q =
    if (q.item ci).in_queue
    then if q.stats_queue_length == 0
      then none
      else some (record (unlink ci q) { stats_queue_length = q.stats_queue_length - 1 })
    else some q

-- the end of `enqueue_cache_item`
abbrev pub queued : ℕ → CacheQueue → CacheQueue
queued ci q = record q {
  item = set_queued ci true q.item;
  stats_queue_length = suc q.stats_queue_length;
}

unfoldable pub push_head : ℕ → CacheQueue → CacheQueue
push_head ci q = record q {
  item = set_prev q.head (some ci) (set_next (some ci) q.head (set_prev (some ci) none q.item));
  head = some ci;
  tail = if is_null q.tail then some ci else q.tail;
}

unfoldable pub push_tail : ℕ → CacheQueue → CacheQueue
push_tail ci q = record q {
  item = set_next q.tail (some ci) (set_prev (some ci) q.tail q.item);
  head = if is_null q.tail then some ci else q.head;
  tail = some ci;
}

unfoldable pub enqueue_at_head : ℕ → CacheQueue → Option CacheQueue
unfolding push_head
enqueue_at_head ci q =
    if is_at q.head ci
    then some q
    else remove_from_queue ci q >>= λ q'. some (queued ci (push_head ci q'))

unfoldable pub enqueue_at_tail : ℕ → CacheQueue → Option CacheQueue
unfolding push_tail
enqueue_at_tail ci q =
    if (q.item ci).in_queue
    then some q
    else if is_null (q.item ci).next
    then if is_null (q.item ci).prev then some (queued ci (push_tail ci q)) else none
    else none

unfoldable pub enqueue_cache_item : ℕ → QueueSide → CacheQueue → Option CacheQueue
unfolding enqueue_at_head enqueue_at_tail
enqueue_cache_item ci side q =
    if length (q.item ci).values == 0
    then some q
    else elim side [ at_head ↦ enqueue_at_head ci q | at_tail ↦ enqueue_at_tail ci q ]

-- `ci->values`, with `ci->values_num`
abbrev pub set_values : ℕ → List (List ℕ) → (ℕ → CacheItem) → ℕ → CacheItem
set_values ci vs item i = if ci == i then record (item i) { values = vs } else item i

-- `rrd_add_strdup_chunk` on the values of an item, where it does not fail
unfoldable pub add_value : ℕ → List ℕ → CacheQueue → CacheQueue
add_value ci v q = record q { item = set_values ci ((q.item ci).values ++ (v ∷ [])) q.item }

-- without `last_flush_time`
unfoldable pub wipe_ci_values : ℕ → CacheQueue → CacheQueue
wipe_ci_values ci q = record q { item = set_values ci [] q.item }

-- `handle_request_wrote` on an item that is found
unfoldable pub handle_request_wrote : ℕ → CacheQueue → Option CacheQueue
unfolding wipe_ci_values remove_from_queue
handle_request_wrote ci q = remove_from_queue ci (wipe_ci_values ci q)

-- `queue_thread_main` with `ci` as the head, up to where it unlocks: the queue, with the item and the
-- values that it then writes; `assert(ci->values_num > 0)` can fail
abbrev pub take_item : ℕ → CacheQueue → Option (CacheQueue × List (ℕ × List (List ℕ)))
take_item ci q =
    if length (q.item ci).values == 0
    then none
    else remove_from_queue ci (wipe_ci_values ci q) >>= λ q'.
        some (q', (ci, (q.item ci).values) ∷ [])

unfoldable pub take_first : CacheQueue → Option (CacheQueue × List (ℕ × List (List ℕ)))
take_first q = elim q.head [ none ↦ some (q, []) | some ci ↦ take_item ci q ]
