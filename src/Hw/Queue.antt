-- ===== src/Hw/Queue.antt =====
-- The queue of `apply_smoother`, `FIFOqueue` of src/rrd_hw.c, and `MyMod`.
pub mod Order
use rrdtool_1_x.Prelude.{
  ◌>>=◌, ℕ, suc, ◌+◌, ◌-◌, ◌%◌, Bool, Option, none, some, List, ltb, ◌==◌, if◌then◌else◌, length,
  get_elem?, set,
}
use rrdtool_1_x.Prelude.Int.{ℤ, pos, negsuc}

unfoldable pub my_mod : ℤ → ℕ → ℕ
my_mod (pos val) modulus = val % modulus
my_mod (negsuc val) modulus = modulus - suc val % modulus

pub record FifoQueue (D : Type 0) : Type 0 where
  pub queue : List D
  pub capacity : ℕ
  pub head : ℕ
  pub tail : ℕ

module _ {D : Type 0} where
  -- `memory` is what `malloc` returns: `capacity` values.
  unfoldable pub queue_alloc : List D → ℕ → FifoQueue D
  queue_alloc memory capacity = record {
    queue = memory;
    capacity = capacity;
    head = capacity;
    tail = 0;
  }

  unfoldable pub queue_isempty : FifoQueue D → Bool
  queue_isempty q = q.head % q.capacity == q.tail

  -- `none` is a place outside the memory.
  unfoldable pub queue_push : FifoQueue D → D → Option (FifoQueue D)
  queue_push q value =
      if ltb q.tail (length q.queue)
      then some (record q { queue = set q.queue q.tail value; tail = suc q.tail % q.capacity })
      else none

  unfoldable pub queue_pop : FifoQueue D → Option (D × FifoQueue D)
  queue_pop q = do
    value ← get_elem? q.queue (q.head % q.capacity)
    some (value, record q { head = suc (q.head % q.capacity) })
