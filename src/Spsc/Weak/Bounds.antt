-- ===== src/Spsc/Weak/Bounds.antt =====
-- No side knows of a store that was not made, so a load of the newest one is always allowed.
use micro_ros_demos.Prelude.{ℕ, ◌≤◌, arith}
use micro_ros_demos.Spsc.{SpscQueue}
use micro_ros_demos.Spsc.Weak.{
  View, Side, Weak, WeakStep, WeakReach, here, next, wait_room, claim, fill, publish, poll,
  wait_block, take, read, release, acquire_fence, relaxed_front, relaxed_back, acquire_back, touch,
  stored_front, stored_back, load_front, load_back, poll_back, enter_write, enter_read, write_block,
  read_block, push_back, pop_front,
}
use micro_ros_demos.Spsc.Weak.Safety.{weak_start}

-- A view within the first stores to `front` and `back`.
abbrev pub Within : ℕ → ℕ → View → Type 0
Within fronts backs v = (v.front ≤ fronts) × (v.back ≤ backs)

abbrev pub SideWithin : ℕ → ℕ → Side → Type 0
SideWithin fronts backs s = Within fronts backs s.current × Within fronts backs s.pending

pub record Bounded {ℓ} {A : Type ℓ} (w : Weak A) : Type ℓ where
  pub producer : SideWithin w.front_stores.newest w.back_stores.newest w.producer
  pub consumer : SideWithin w.front_stores.newest w.back_stores.newest w.consumer
  pub fronts : (k : ℕ) → Within w.front_stores.newest w.back_stores.newest (w.front_stores.view k)
  pub backs : (k : ℕ) → Within w.front_stores.newest w.back_stores.newest (w.back_stores.view k)

module _ {ℓ} {A : Type ℓ} where
  pub WeakStep-Bounded : {w w' : Weak A} → WeakStep w w' → Bounded w → Bounded w'
  unfolding load_front load_back poll_back enter_write enter_read write_block read_block push_back
      pop_front acquire_fence relaxed_front relaxed_back acquire_back touch stored_front stored_back
  WeakStep-Bounded (wait_room k i e l m) b = record {
    producer = ground (arith, b.fronts k);
    consumer = b.consumer;
    fronts = b.fronts;
    backs = b.backs;
  }
  WeakStep-Bounded (claim i e) b = record {
    producer = ground arith;
    consumer = b.consumer;
    fronts = b.fronts;
    backs = b.backs;
  }
  WeakStep-Bounded (fill x t) b = record {
    producer = b.producer;
    consumer = b.consumer;
    fronts = b.fronts;
    backs = b.backs;
  }
  WeakStep-Bounded (publish t) b = record {
    producer = omega arith;
    consumer = omega arith;
    fronts = λ k. omega (arith, b.fronts k);
    backs = λ k. ground (arith, b.backs k);
  }
  WeakStep-Bounded (poll k l m) b = record {
    producer = b.producer;
    consumer = ground (arith, b.backs k);
    fronts = b.fronts;
    backs = b.backs;
  }
  WeakStep-Bounded (wait_block k i e l m) b = record {
    producer = b.producer;
    consumer = ground (arith, b.backs k);
    fronts = b.fronts;
    backs = b.backs;
  }
  WeakStep-Bounded (take i e) b = record {
    producer = b.producer;
    consumer = ground arith;
    fronts = b.fronts;
    backs = b.backs;
  }
  WeakStep-Bounded (read t) b = record {
    producer = b.producer;
    consumer = b.consumer;
    fronts = b.fronts;
    backs = b.backs;
  }
  WeakStep-Bounded (release t) b = record {
    producer = omega arith;
    consumer = omega arith;
    fronts = λ k. ground (arith, b.fronts k);
    backs = λ k. omega (arith, b.backs k);
  }

  pub WeakReach-keeps_Bounded : {w w' : Weak A} → WeakReach w w' → Bounded w → Bounded w'
  WeakReach-keeps_Bounded here b = b
  WeakReach-keeps_Bounded (next r st) b = WeakStep-Bounded st (WeakReach-keeps_Bounded r b)

  pub weak_start-Bounded : (q : SpscQueue) (slot : ℕ → A) → Bounded (weak_start q slot)
  weak_start-Bounded q slot = record {
    producer = omega arith;
    consumer = omega arith;
    fronts = λ k. omega arith;
    backs = λ k. omega arith;
  }
