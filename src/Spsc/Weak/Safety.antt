-- ===== src/Spsc/Weak/Safety.antt =====
-- What the release stores and the acquire fences of the queue are for.
use micro_ros_demos.Prelude.{
  ℕ, suc, ◌+◌, ◌-◌, ◌^◌, ◌≤◌, ◌≡◌, refl, true, false, List, ◌∷◌, ◌++◌, arith, length,
}
use micro_ros_demos.Spsc.{SpscQueue}
use micro_ros_demos.Spsc.Shared.{write_index, read_index}
use micro_ros_demos.Spsc.Invariant.{Ghost, Counters, window, write_index-ghost, read_index-ghost}
use micro_ros_demos.Spsc.Init.{no_blocks}
use micro_ros_demos.Spsc.Fifo.{start, start-Inv, length-window, window-cons}
use micro_ros_demos.Spsc.Weak.{
  View, Side, Weak, WeakStep, wait_room, claim, fill, publish, poll, wait_block, take, read,
  release, WeakReach, here, next,
}
use micro_ros_demos.Spsc.Weak.Loads.{
  Sound, load_front-Sound, load_back-Sound, poll_back-Sound, enter_write-Sound, enter_read-Sound,
}
use micro_ros_demos.Spsc.Weak.Blocks.{
  write_block-Sound, read_block-Sound, push_back-Sound, pop_front-Sound,
}

-- The view of both sides after `spsc_init`.
abbrev pub unseen : View
unseen = record { front = 0; back = 0; block = λ i. 0 }

abbrev pub newcomer : Side
newcomer = record { current = unseen; pending = unseen }

abbrev pub weak_start {ℓ} : {A : Type ℓ} → SpscQueue → (ℕ → A) → Weak A
weak_start q slot = record {
  system = start q slot;
  front_stores = record { newest = 0; value = λ k. q.front; view = λ k. unseen };
  back_stores = record { newest = 0; value = λ k. q.back; view = λ k. unseen };
  accesses = λ i. 0;
  producer = newcomer;
  consumer = newcomer;
  raced = false;
}

module _ {ℓ} {A : Type ℓ} where
  pub weak_start-Sound :
      (q : SpscQueue) (slot : ℕ → A) → Counters q no_blocks → Sound (weak_start q slot) no_blocks
  weak_start-Sound q slot c = record {
    inv = start-Inv q slot c;
    producer = record {
      newest = refl;
      values = λ k l. ground arith;
      fenced = λ i. omega arith;
      heard = λ i. omega arith;
      told = λ i. omega arith;
      covers = λ k y l m n. ground arith;
      held = λ t. omega arith;
    };
    consumer = record {
      newest = refl;
      values = λ k l. ground arith;
      fenced = λ i. omega arith;
      heard = λ i. omega arith;
      told = λ i. omega arith;
      covers = λ k y l m n. ground arith;
      held = λ t. omega arith;
    };
    seen_front = omega arith;
    seen_back = omega arith;
    calm = refl;
  }

  WeakStep-Sound :
      {w w' : Weak A} → WeakStep w w' → (g : Ghost) → Sound w g → (g' : Ghost) × Sound w' g'
  WeakStep-Sound {w} (wait_room k i e l m) g v =
      (record g { seen_popped = k }, load_front-Sound w g v k i l m)
  WeakStep-Sound {w} (claim i e) g v = (g, enter_write-Sound w g v i e)
  WeakStep-Sound {w} (fill x t) g v = (g, write_block-Sound w g v x t)
  WeakStep-Sound {w} (publish t) g v = (record g { pushed = suc g.pushed }, push_back-Sound w g v t)
  WeakStep-Sound {w} (poll k l m) g v = (record g { seen_pushed = k }, poll_back-Sound w g v k l m)
  WeakStep-Sound {w} (wait_block k i e l m) g v =
      (record g { seen_pushed = k }, load_back-Sound w g v k l m)
  WeakStep-Sound {w} (take i e) g v = (g, enter_read-Sound w g v i e)
  WeakStep-Sound {w} (read t) g v = (g, read_block-Sound w g v t)
  WeakStep-Sound {w} (release t) g v = (record g { popped = suc g.popped }, pop_front-Sound w g v t)

  pub WeakReach-Sound :
      {w w' : Weak A} → WeakReach w w' → (g : Ghost) → Sound w g → (g' : Ghost) × Sound w' g'
  WeakReach-Sound here g v = (g, v)
  WeakReach-Sound (next r st) g v = let (g', v') = WeakReach-Sound r g v in WeakStep-Sound st g' v'

  module _ (q : SpscQueue) (slot : ℕ → A) (w : Weak A) (c : Counters q no_blocks)
      (r : WeakReach (weak_start q slot) w) where
    -- In every execution from a new queue that the memory model allows, stale loads included, no
    -- two accesses to a block race: every access to the block that a side holds happened before
    -- what the side does next.
    pub race_free :
        (w.raced ≡ false)
        × (w.system.writing ≡ true
            → w.accesses (write_index w.system.queue)
              ≤ w.producer.current.block (write_index w.system.queue))
        × (w.system.reading ≡ true
            → w.accesses (read_index w.system.queue)
              ≤ w.consumer.current.block (read_index w.system.queue))
    race_free =
        let (g, v) = WeakReach-Sound r no_blocks (weak_start-Sound q slot c) in
        (
          v.calm,
          λ t. rw (write_index-ghost w.system.queue g v.inv.counters) (v.producer.held t),
          λ t. rw (read_index-ghost w.system.queue g v.inv.counters) (v.consumer.held t),
        )

    -- In every execution that the memory model allows, stale loads included, the consumer gets the
    -- blocks that the producer pushed, in that order and with what they held. At most one capacity
    -- of them is still to be popped, and the block that the consumer holds is the oldest of these.
    pub weak_fifo :
        (rest : List A) × (w.system.sent ≡ w.system.received ++ rest)
        × (length rest ≤ 2 ^ w.system.queue.log2_capacity)
        × (w.system.reading ≡ true
            → (later : List A) × (rest ≡ w.system.slot (read_index w.system.queue) ∷ later))
    weak_fifo =
        let (g, v) = WeakReach-Sound r no_blocks (weak_start-Sound q slot c) in
        let size : ℕ = 2 ^ w.system.queue.log2_capacity in
        let n : ℕ = g.pushed - g.popped in
        (
          window w.system.slot size g.popped n,
          v.inv.fifo,
          omega (arith, v.inv.counters, length-window w.system.slot size g.popped n),
          λ t. (
            window w.system.slot size (g.popped + 1) (n - 1),
            rw (read_index-ghost w.system.queue g v.inv.counters) (
                window-cons w.system.slot size g.popped n
                  (omega (arith, v.inv.read_ok t, v.inv.counters))),
          ),
        )
