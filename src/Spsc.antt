-- ===== src/Spsc.antt =====
-- rclc/ping_pong_sel4/util/spsc_queue.h: a queue of fixed-size blocks between one producer and one
-- consumer that share memory. Counters are uint64_t and wrap; `x & (2^k - 1)` is `x % 2^k`.
pub mod Shared
pub mod Invariant
pub mod Init
pub mod Fifo
mod Capacity
pub mod Waiting
pub mod Weak
mod Tests
use micro_ros_demos.Prelude.{
  ℕ, zero, suc, ◌+◌, ◌-◌, ◌*◌, ◌/◌, ◌%◌, ◌^◌, Bool, true, false, List, [], ◌∷◌, Option, none, some,
  ◌==◌, if◌then◌else◌,
}

-- `spsc_queue_t`. Pointers are addresses.
pub record SpscQueue : Type 0 where
  pub front : ℕ
  pub back : ℕ
  pub consumer_cached_front : ℕ
  pub consumer_cached_back : ℕ
  pub producer_cached_front : ℕ
  pub producer_cached_back : ℕ
  pub begin : ℕ
  pub end : ℕ
  pub log2_block_size : ℕ
  pub log2_capacity : ℕ

-- uint64_t `a - b` and `++a`
abbrev pub sub_u64 : ℕ → ℕ → ℕ
sub_u64 a b = (a + 2 ^ 64 - b) % 2 ^ 64

abbrev pub inc_u64 : ℕ → ℕ
inc_u64 a = (a + 1) % 2 ^ 64

-- `__builtin_ctzll`: the zero bits below the lowest one bit of a nonzero 64-bit word.
pub ctz_from : ℕ → ℕ → ℕ
ctz_from zero x = 0
ctz_from (suc bits) x = elim (x % 2 == 0) [ true ↦ suc (ctz_from bits (x / 2)) | false ↦ 0 ]

unfoldable pub ctz : ℕ → ℕ
unfolding ctz_from
ctz x = ctz_from 64 x

-- the number of whole blocks between two addresses
abbrev pub block_count : ℕ → ℕ → ℕ → ℕ
block_count begin end log2_block_size = sub_u64 end begin / 2 ^ log2_block_size

-- the assignments of `spsc_init`
abbrev pub cleared : ℕ → ℕ → ℕ → ℕ → SpscQueue
cleared begin end log2_block_size log2_capacity = record {
  front = 0;
  back = 0;
  consumer_cached_front = 0;
  consumer_cached_back = 0;
  producer_cached_front = 0;
  producer_cached_back = 0;
  begin = begin;
  end = end;
  log2_block_size = log2_block_size;
  log2_capacity = log2_capacity;
}

-- The shift of 1ull by `log2_block_size` is 2 ^ it below 64, the range in which it is defined.
unfoldable pub spsc_init : SpscQueue → ℕ → ℕ → ℕ → Bool × SpscQueue
spsc_init q begin end log2_block_size =
    let end' = begin + block_count begin end log2_block_size * 2 ^ log2_block_size in
    if begin == end'
    then (false, q)
    else (true, cleared begin end' log2_block_size (ctz (block_count begin end' log2_block_size)))

unfoldable pub spsc_push : SpscQueue → SpscQueue
spsc_push q = record q {
  producer_cached_back = inc_u64 q.producer_cached_back;
  back = inc_u64 q.producer_cached_back;
}

-- the address of the block that a counter stands for
unfoldable pub block_at : SpscQueue → ℕ → ℕ
block_at q counter = q.begin + counter % 2 ^ q.log2_capacity * 2 ^ q.log2_block_size

-- The test of the loop in `spsc_new_block`, and its body with the value that the load of `front` saw.
unfoldable pub looks_full : SpscQueue → Bool
looks_full q = sub_u64 q.producer_cached_back q.producer_cached_front == 2 ^ q.log2_capacity

unfoldable pub reload_front : SpscQueue → ℕ → SpscQueue
reload_front q seen = record q { producer_cached_front = seen }

-- The loop waits for the consumer: `seen` lists what its loads of `front` return, in order, and
-- `none` says that the list ran out while the queue still looked full.
unfoldable pub spsc_new_block : List ℕ → SpscQueue → Option (ℕ × SpscQueue)
spsc_new_block [] q = if looks_full q then none else some (block_at q q.producer_cached_back, q)
spsc_new_block (front ∷ seen) q =
    let rest = spsc_new_block seen (reload_front q front) in
    if looks_full q then rest else some (block_at q q.producer_cached_back, q)

unfoldable pub spsc_empty : SpscQueue → Bool × SpscQueue
spsc_empty q =
    let q' = record q { consumer_cached_back = q.back } in
    (q'.consumer_cached_back == q'.consumer_cached_front, q')

unfoldable pub spsc_pop : SpscQueue → SpscQueue
spsc_pop q = record q {
  consumer_cached_front = inc_u64 q.consumer_cached_front;
  front = inc_u64 q.consumer_cached_front;
}

unfoldable pub looks_empty : SpscQueue → Bool
looks_empty q = q.consumer_cached_back == q.consumer_cached_front

unfoldable pub reload_back : SpscQueue → ℕ → SpscQueue
reload_back q seen = record q { consumer_cached_back = seen }

-- As `spsc_new_block`, with the loads of `back`.
unfoldable pub spsc_front_block : List ℕ → SpscQueue → Option (ℕ × SpscQueue)
spsc_front_block [] q = if looks_empty q then none else some (block_at q q.consumer_cached_front, q)
spsc_front_block (back ∷ seen) q =
    let rest = spsc_front_block seen (reload_back q back) in
    if looks_empty q then rest else some (block_at q q.consumer_cached_front, q)
