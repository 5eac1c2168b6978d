-- ===== src/Spsc/Weak/Order.antt =====
-- Why the accesses may be taken in one global order: apart from the copies that each side keeps of
-- the other's counter, a weak execution reaches nothing else.
use micro_ros_demos.Prelude.{ℕ, ◌+◌, ◌^◌, ◌<◌, ◌≡◌, false, arith, Bool-cases, inl, inr}
use micro_ros_demos.Spsc.{
  SpscQueue, looks_full, reload_front, looks_empty, reload_back, spsc_push, spsc_pop,
}
use micro_ros_demos.Spsc.Shared.{System, Step, Reach}
use micro_ros_demos.Spsc.Shared as Shared
use micro_ros_demos.Spsc.Invariant.{Ghost, Counters, not_full, not_empty}
use micro_ros_demos.Spsc.Init.{no_blocks}
use micro_ros_demos.Spsc.Fifo.{start, start-Inv, Reach-Inv, fill_level}
use micro_ros_demos.Spsc.Waiting.{sees_room, sees_block}
use micro_ros_demos.Spsc.Weak.{
  Weak, WeakStep, WeakReach, here, next, wait_room, claim, fill, publish, poll, wait_block, take,
  read, release, load_front, load_back, poll_back, enter_write, enter_read, write_block, read_block,
  push_back, pop_front,
}
use micro_ros_demos.Spsc.Weak.Loads.{Sound}
use micro_ros_demos.Spsc.Weak.Safety.{weak_start, weak_start-Sound, WeakReach-Sound}

module _ {ℓ} {A : Type ℓ} where
  -- The state with other copies of `front` and `back`.
  abbrev pub with_copies : ℕ → ℕ → System A → System A
  with_copies front back s = record s {
    queue = record s.queue { producer_cached_front = front; consumer_cached_back = back };
  }

  -- An execution in one global order up to the copies.
  record Ordered (q : SpscQueue) (slot : ℕ → A) (s : System A) : Type ℓ where
    front : ℕ
    back : ℕ
    reach : Reach (start q slot) (with_copies front back s)

  module _ (q : SpscQueue) (slot : ℕ → A) (c : Counters q no_blocks) where
    claim-Ordered :
        (w : Weak A) (g : Ghost)
        → Sound w g
        → w.system.writing ≡ false
        → looks_full w.system.queue ≡ false
        → Ordered q slot w.system
        → Ordered q slot (enter_write w).system
    unfolding enter_write reload_front
    claim-Ordered w g v idle free o =
        let s = with_copies o.front o.back w.system in
        let (g', v') = Reach-Inv o.reach no_blocks (start-Inv q slot c) in
        let room : g'.pushed < g'.popped + 2 ^ s.queue.log2_capacity = omega (
          arith,
          not_full w.system.queue g v.inv.counters free,
          v.inv.counters,
          fill_level w.system g v.inv,
          fill_level s g' v',
        ) in
        elim (Bool-cases (looks_full s.queue)) [
          | inl full ↦ record {
            front = w.system.queue.front;
            back = o.back;
            reach =
                Shared.next (Shared.next o.reach (Shared.wait_room idle full))
                  (Shared.claim idle (sees_room s.queue g' v'.counters room));
          }
          | inr still ↦ record {
            front = o.front;
            back = o.back;
            reach = Shared.next o.reach (Shared.claim idle still);
          }
        ]

    take-Ordered :
        (w : Weak A) (g : Ghost)
        → Sound w g
        → w.system.reading ≡ false
        → looks_empty w.system.queue ≡ false
        → Ordered q slot w.system
        → Ordered q slot (enter_read w).system
    unfolding enter_read reload_back
    take-Ordered w g v idle full o =
        let s = with_copies o.front o.back w.system in
        let (g', v') = Reach-Inv o.reach no_blocks (start-Inv q slot c) in
        let block : g'.popped < g'.pushed = omega (
          arith,
          not_empty w.system.queue g v.inv.counters full,
          v.inv.counters,
          fill_level w.system g v.inv,
          fill_level s g' v',
        ) in
        elim (Bool-cases (looks_empty s.queue)) [
          | inl bare ↦ record {
            front = o.front;
            back = w.system.queue.back;
            reach =
                Shared.next (Shared.next o.reach (Shared.wait_block idle bare))
                  (Shared.take idle (sees_block s.queue g' v'.counters block));
          }
          | inr still ↦ record {
            front = o.front;
            back = o.back;
            reach = Shared.next o.reach (Shared.take idle still);
          }
        ]

    WeakStep-Ordered :
        {w w' : Weak A}
        → WeakStep w w'
        → (g : Ghost) → Sound w g
        → Ordered q slot w.system
        → Ordered q slot w'.system
    unfolding load_front load_back poll_back reload_front reload_back write_block read_block
        push_back pop_front spsc_push spsc_pop
    WeakStep-Ordered (wait_room k i e l m) g v o = record {
      front = o.front;
      back = o.back;
      reach = o.reach;
    }
    WeakStep-Ordered {w} (claim i e) g v o = claim-Ordered w g v i e o
    WeakStep-Ordered (fill x t) g v o = record {
      front = o.front;
      back = o.back;
      reach = Shared.next o.reach (Shared.fill x t);
    }
    WeakStep-Ordered (publish t) g v o = record {
      front = o.front;
      back = o.back;
      reach = Shared.next o.reach (Shared.publish t);
    }
    WeakStep-Ordered (poll k l m) g v o = record { front = o.front; back = o.back; reach = o.reach }
    WeakStep-Ordered (wait_block k i e l m) g v o = record {
      front = o.front;
      back = o.back;
      reach = o.reach;
    }
    WeakStep-Ordered {w} (take i e) g v o = take-Ordered w g v i e o
    WeakStep-Ordered (read t) g v o = record { front = o.front; back = o.back; reach = o.reach }
    WeakStep-Ordered (release t) g v o = record {
      front = o.front;
      back = o.back;
      reach = Shared.next o.reach (Shared.release t);
    }

    WeakReach-Ordered : {w : Weak A} → WeakReach (weak_start q slot) w → Ordered q slot w.system
    WeakReach-Ordered here = record {
      front = q.producer_cached_front;
      back = q.consumer_cached_back;
      reach = Shared.here;
    }
    WeakReach-Ordered (next r st) =
        let (g, v) = WeakReach-Sound r no_blocks (weak_start-Sound q slot c) in
        WeakStep-Ordered st g v (WeakReach-Ordered r)

    -- Every state that a new queue reaches under the weak memory model, stale loads included, is
    -- reached with all atomic accesses in one global order too, up to the copies that the producer
    -- keeps of `front` and the consumer of `back`: with the same blocks, counters, pushes and pops.
    pub one_order_lem :
        (w : Weak A)
        → WeakReach (weak_start q slot) w
        → (front back : ℕ) × Reach (start q slot) (with_copies front back w.system)
    one_order_lem w r = let o = WeakReach-Ordered r in (o.front, o.back, o.reach)
