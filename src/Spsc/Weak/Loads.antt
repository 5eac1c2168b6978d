-- ===== src/Spsc/Weak/Loads.antt =====
-- The invariant of the queue under the weak memory model, kept by the loads and the fences.
use micro_ros_demos.Prelude.{ℕ, ◌%◌, ◌^◌, ◌≤◌, ◌≡◌, false, arith}
use micro_ros_demos.Spsc.{SpscQueue, looks_full, looks_empty, reload_front, reload_back}
use micro_ros_demos.Spsc.Shared.{System, write_index, read_index, publish_state, release_state}
use micro_ros_demos.Spsc.Shared as Shared
use micro_ros_demos.Spsc.Invariant.{Ghost, Counters, Inv, not_full, not_empty, Step-Inv}
use micro_ros_demos.Spsc.Weak.{
  Weak, acquire_fence, relaxed_front, relaxed_back, acquire_back, load_front, load_back, poll_back,
  enter_write, enter_read,
}
use micro_ros_demos.Spsc.Weak.Half.{
  Half, relaxed_front-Grows, relaxed_back-Grows, acquire_back-Grows, load-Half, fence-Half,
}

-- The queue's invariant, what each side knows, and that no two accesses raced.
pub record Sound {ℓ} {A : Type ℓ} (w : Weak A) (g : Ghost) : Type ℓ where
  pub inv : Inv w.system g
  pub producer :
      Half w.accesses w.producer w.back_stores w.front_stores
        (2 ^ w.system.queue.log2_capacity)
        (2 ^ w.system.queue.log2_capacity)
        g.pushed
        g.popped
        g.seen_popped
        w.system.writing
  pub consumer :
      Half w.accesses w.consumer w.front_stores w.back_stores
        (2 ^ w.system.queue.log2_capacity)
        0
        g.popped
        g.pushed
        g.seen_pushed
        w.system.reading
  pub seen_front : g.seen_popped ≤ w.producer.current.front
  pub seen_back : g.seen_pushed ≤ w.consumer.current.back
  pub calm : w.raced ≡ false

-- A load that returns an old value keeps the counters in order.
pub stale_front-Counters :
    (q : SpscQueue) (g : Ghost) (x k : ℕ)
    → Counters q g
    → x ≡ k % 2 ^ 64
    → g.seen_popped ≤ k
    → k ≤ g.popped
    → Counters (reload_front q x) (record g { seen_popped = k })
unfolding reload_front
stale_front-Counters q g x k c e l m = omega arith

pub stale_back-Counters :
    (q : SpscQueue) (g : Ghost) (x k : ℕ)
    → Counters q g
    → x ≡ k % 2 ^ 64
    → g.seen_pushed ≤ k
    → k ≤ g.pushed
    → Counters (reload_back q x) (record g { seen_pushed = k })
unfolding reload_back
stale_back-Counters q g x k c e l m = omega arith

module _ {ℓ} {A : Type ℓ} (w : Weak A) (g : Ghost) (v : Sound w g) where
  pub load_front-Sound :
      (k : ℕ)
      → w.system.writing ≡ false
      → w.producer.current.front ≤ k
      → k ≤ w.front_stores.newest
      → Sound (load_front k w) (record g { seen_popped = k })
  unfolding load_front reload_front relaxed_front
  load_front-Sound k idle l m = record {
    inv = record {
      counters =
          stale_front-Counters w.system.queue g (w.front_stores.value k) k v.inv.counters
            (v.consumer.values k (omega (arith, v.consumer.newest))) (omega (arith, v.seen_front))
            (omega (arith, v.consumer.newest));
      write_ok = λ t. cc;
      read_ok = v.inv.read_ok;
      fifo = v.inv.fifo;
    };
    producer =
        load-Half v.producer (relaxed_front k (w.front_stores.view k) w.producer) k
          (relaxed_front-Grows k (w.front_stores.view k) w.producer v.producer.fenced)
          (λ i. ground arith);
    consumer = v.consumer;
    seen_front = ground arith;
    seen_back = v.seen_back;
    calm = v.calm;
  }

  load_back-Inv :
      (k : ℕ)
      → w.consumer.current.back ≤ k
      → k ≤ w.back_stores.newest
      → Inv
          (record w.system { queue = reload_back w.system.queue (w.back_stores.value k) })
          (record g { seen_pushed = k })
  unfolding reload_back
  load_back-Inv k l m = record {
    counters =
        stale_back-Counters w.system.queue g (w.back_stores.value k) k v.inv.counters
          (v.producer.values k (omega (arith, v.producer.newest))) (omega (arith, v.seen_back))
          (omega (arith, v.producer.newest));
    write_ok = v.inv.write_ok;
    read_ok = λ t. omega (arith, v.inv.read_ok t, v.seen_back);
    fifo = v.inv.fifo;
  }

  pub load_back-Sound :
      (k : ℕ)
      → w.consumer.current.back ≤ k
      → k ≤ w.back_stores.newest
      → Sound (load_back k w) (record g { seen_pushed = k })
  unfolding load_back reload_back relaxed_back
  load_back-Sound k l m = record {
    inv = load_back-Inv k l m;
    producer = v.producer;
    consumer =
        load-Half v.consumer (relaxed_back k (w.back_stores.view k) w.consumer) k
          (relaxed_back-Grows k (w.back_stores.view k) w.consumer v.consumer.fenced)
          (λ i. ground arith);
    seen_front = v.seen_front;
    seen_back = ground arith;
    calm = v.calm;
  }

  pub poll_back-Sound :
      (k : ℕ)
      → w.consumer.current.back ≤ k
      → k ≤ w.back_stores.newest
      → Sound (poll_back k w) (record g { seen_pushed = k })
  unfolding poll_back reload_back acquire_back
  poll_back-Sound k l m = record {
    inv = load_back-Inv k l m;
    producer = v.producer;
    consumer =
        load-Half v.consumer (acquire_back k (w.back_stores.view k) w.consumer) k
          (acquire_back-Grows k (w.back_stores.view k) w.consumer v.consumer.fenced)
          (λ i. ground arith);
    seen_front = v.seen_front;
    seen_back = ground arith;
    calm = v.calm;
  }

  pub enter_write-Sound :
      w.system.writing ≡ false → looks_full w.system.queue ≡ false → Sound (enter_write w) g
  unfolding enter_write acquire_fence
  enter_write-Sound idle room = record {
    inv = Step-Inv (Shared.claim idle room) g v.inv;
    producer =
        fence-Half v.producer (omega (arith, v.inv.counters))
          (not_full w.system.queue g v.inv.counters room);
    consumer = v.consumer;
    seen_front = ground (arith, v.seen_front);
    seen_back = v.seen_back;
    calm = v.calm;
  }

  pub enter_read-Sound :
      w.system.reading ≡ false → looks_empty w.system.queue ≡ false → Sound (enter_read w) g
  unfolding enter_read acquire_fence
  enter_read-Sound idle some_block = record {
    inv = Step-Inv (Shared.take idle some_block) g v.inv;
    producer = v.producer;
    consumer =
        fence-Half v.consumer (omega (arith, v.inv.counters))
          (omega (arith, not_empty w.system.queue g v.inv.counters some_block));
    seen_front = v.seen_front;
    seen_back = ground (arith, v.seen_back);
    calm = v.calm;
  }
