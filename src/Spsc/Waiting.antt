-- ===== src/Spsc/Waiting.antt =====
-- When the loops of `spsc_new_block` and `spsc_front_block` end.
use micro_ros_demos.Prelude.{
  ℕ, zero, suc, ◌+◌, ◌^◌, ◌<◌, ◌≡◌, true, false, [], ◌∷◌, some, none, arith, length, replicate,
  if◌then◌else◌,
}
use micro_ros_demos.Arithmetic.{two-pow-le}
use micro_ros_demos.Spsc.{
  SpscQueue, looks_full, reload_front, looks_empty, reload_back, spsc_new_block, spsc_front_block,
  block_at,
}
use micro_ros_demos.Spsc.Shared.{System, Reach}
use micro_ros_demos.Spsc.Invariant.{Ghost, Counters}
use micro_ros_demos.Spsc.Init.{no_blocks}
use micro_ros_demos.Spsc.Fifo.{start, start-Inv, Reach-Inv, fill_level}

module _ (q : SpscQueue) (g : Ghost) (k : Counters q g) where
  pub sees_room :
      g.pushed < g.popped + 2 ^ q.log2_capacity → looks_full (reload_front q q.front) ≡ false
  unfolding looks_full reload_front
  sees_room h = ground (arith, two-pow-le q.log2_capacity 63 k.small)

  sees_full :
      g.pushed ≡ g.popped + 2 ^ q.log2_capacity
      → (looks_full q ≡ true) × (reload_front q q.front ≡ q)
  unfolding looks_full reload_front
  sees_full h = (
    ground (arith, two-pow-le q.log2_capacity 63 k.small),
    λ i. record q {
      producer_cached_front = (let e : q.front ≡ q.producer_cached_front = omega arith in e) i;
    },
  )

  pub sees_block : g.popped < g.pushed → looks_empty (reload_back q q.back) ≡ false
  unfolding looks_empty reload_back
  sees_block h = ground (arith, two-pow-le q.log2_capacity 63 k.small)

  pub sees_none : g.pushed ≡ g.popped → (looks_empty q ≡ true) × (reload_back q q.back ≡ q)
  unfolding looks_empty reload_back
  sees_none h = (
    ground arith,
    λ i. record q {
      consumer_cached_back = (let e : q.back ≡ q.consumer_cached_back = omega arith in e) i;
    },
  )

  pub new_block_reads :
      g.pushed < g.popped + 2 ^ q.log2_capacity
      → spsc_new_block (q.front ∷ []) q
        ≡ some
            (block_at q q.producer_cached_back, if looks_full q then reload_front q q.front else q)
  unfolding spsc_new_block block_at reload_front
  new_block_reads h = ground (arith, sees_room h)

  pub front_block_reads :
      g.popped < g.pushed
      → spsc_front_block (q.back ∷ []) q
        ≡ some
            (block_at q q.consumer_cached_front, if looks_empty q then reload_back q q.back else q)
  unfolding spsc_front_block block_at reload_back
  front_block_reads h = ground (arith, sees_block h)

  pub new_block_waits :
      g.pushed ≡ g.popped + 2 ^ q.log2_capacity
      → (n : ℕ) → spsc_new_block (replicate n q.front) q ≡ none
  unfolding spsc_new_block
  new_block_waits h zero = rw (sees_full h).0
  new_block_waits h (suc n) = rw ((sees_full h).0, (sees_full h).1) (new_block_waits h n)

  pub front_block_waits :
      g.pushed ≡ g.popped → (n : ℕ) → spsc_front_block (replicate n q.back) q ≡ none
  unfolding spsc_front_block
  front_block_waits h zero = rw (sees_none h).0
  front_block_waits h (suc n) = rw ((sees_none h).0, (sees_none h).1) (front_block_waits h n)

module _ {ℓ} {A : Type ℓ} (q : SpscQueue) (slot : ℕ → A) (t : System A) (k : Counters q no_blocks)
    (r : Reach (start q slot) t) where
  -- In every reachable state `spsc_new_block` returns after one load of `front` while fewer blocks
  -- than the capacity are pushed and not yet popped, and it waits, however often it loads `front`,
  -- while that many are.
  pub new_block_lem :
      (length t.sent < length t.received + 2 ^ t.queue.log2_capacity
        → spsc_new_block (t.queue.front ∷ []) t.queue
          ≡ some (
            block_at t.queue t.queue.producer_cached_back,
            if looks_full t.queue then reload_front t.queue t.queue.front else t.queue,
          ))
      × (length t.sent ≡ length t.received + 2 ^ t.queue.log2_capacity
          → (n : ℕ) → spsc_new_block (replicate n t.queue.front) t.queue ≡ none)
  new_block_lem =
      let (g, v) = Reach-Inv r no_blocks (start-Inv q slot k) in
      (
        λ h. new_block_reads t.queue g v.counters (omega (arith, fill_level t g v)),
        λ h. new_block_waits t.queue g v.counters (omega (arith, fill_level t g v)),
      )

  -- In every reachable state `spsc_front_block` returns after one load of `back` while some block
  -- is pushed and not yet popped, and it waits, however often it loads `back`, while none is.
  pub front_block_lem :
      (length t.received < length t.sent
        → spsc_front_block (t.queue.back ∷ []) t.queue
          ≡ some (
            block_at t.queue t.queue.consumer_cached_front,
            if looks_empty t.queue then reload_back t.queue t.queue.back else t.queue,
          ))
      × (length t.sent ≡ length t.received
          → (n : ℕ) → spsc_front_block (replicate n t.queue.back) t.queue ≡ none)
  front_block_lem =
      let (g, v) = Reach-Inv r no_blocks (start-Inv q slot k) in
      (
        λ h. front_block_reads t.queue g v.counters (omega (arith, fill_level t g v)),
        λ h. front_block_waits t.queue g v.counters (omega (arith, fill_level t g v)),
      )
