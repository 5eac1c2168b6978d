-- ===== src/Spsc/Weak.antt =====
-- The queue under the memory model of ISO C. `front` and `back` are atomics, the blocks are not. A
-- load may return an old value, what a release store tells is learned by an acquire load, or by
-- a relaxed load and a later acquire fence, and two accesses to a block that are not ordered so race.
mod Half
mod Loads
mod Blocks
pub mod Safety
pub mod Waiting
pub mod Order
mod Bounds
pub mod Progress
mod Tests
use micro_ros_demos.Prelude.{
  ℕ, zero, suc, ◌+◌, ◌%◌, ◌^◌, ◌≤◌, ◌≡◌, Bool, true, false, ◌||◌, ltb, update, if◌then◌else◌,
}
use micro_ros_demos.Spsc.{SpscQueue, looks_full, looks_empty, reload_front, reload_back}
use micro_ros_demos.Spsc.Shared.{System, write_index, read_index, publish_state, release_state}

-- What happened before: the newest stores to `front` and `back`, and how many accesses to each block.
pub record View : Type 0 where
  pub front : ℕ
  pub back : ℕ
  pub block : ℕ → ℕ

abbrev pub larger : ℕ → ℕ → ℕ
larger a b = if ltb a b then b else a

abbrev pub join : View → View → View
join u v = record {
  front = larger u.front v.front;
  back = larger u.back v.back;
  block = λ i. larger (u.block i) (v.block i);
}

-- The stores to one atomic, numbered from 0, the value that `spsc_init` gave it. A release store
-- leaves the view of the side that stored.
pub record History : Type 0 where
  pub newest : ℕ
  pub value : ℕ → ℕ
  pub view : ℕ → View

abbrev pub append_store : History → ℕ → View → History
append_store h x v = record {
  newest = suc h.newest;
  value = update h.value (suc h.newest) x;
  view = update h.view (suc h.newest) v;
}

-- `current` is what happened before a side's next access. `pending` is what will have, once the
-- side passes an acquire fence.
pub record Side : Type 0 where
  pub current : View
  pub pending : View

unfoldable pub acquire_fence : Side → Side
acquire_fence s = record s { current = join s.current s.pending }

-- A relaxed load of the store number `k`: only the place in that atomic's order is learned at once.
unfoldable pub relaxed_front : ℕ → View → Side → Side
relaxed_front k told s = record {
  current = record s.current { front = larger s.current.front k };
  pending = join (record s.pending { front = larger s.pending.front k }) told;
}

unfoldable pub relaxed_back : ℕ → View → Side → Side
relaxed_back k told s = record {
  current = record s.current { back = larger s.current.back k };
  pending = join (record s.pending { back = larger s.pending.back k }) told;
}

-- An acquire load learns at once what the store tells.
unfoldable pub acquire_back : ℕ → View → Side → Side
acquire_back k told s = record {
  current = join (record s.current { back = larger s.current.back k }) told;
  pending = join (record s.pending { back = larger s.pending.back k }) told;
}

-- A side knows of its own accesses: `n` is the number of the newest to block `i`.
unfoldable pub touch : ℕ → ℕ → Side → Side
touch i n s = record {
  current = record s.current { block = update s.current.block i (larger (s.current.block i) n) };
  pending = record s.pending { block = update s.pending.block i (larger (s.pending.block i) n) };
}

-- A release store does not wait, so the side knows of it too.
unfoldable pub stored_front : ℕ → Side → Side
stored_front n s = record {
  current = record s.current { front = n };
  pending = record s.pending { front = n };
}

unfoldable pub stored_back : ℕ → Side → Side
stored_back n s = record {
  current = record s.current { back = n };
  pending = record s.pending { back = n };
}

-- `accesses i` counts the accesses to block `i`. `raced` is set by an access that some earlier one
-- to the same block did not happen before.
pub record Weak {ℓ} (A : Type ℓ) : Type ℓ where
  pub system : System A
  pub front_stores : History
  pub back_stores : History
  pub accesses : ℕ → ℕ
  pub producer : Side
  pub consumer : Side
  pub raced : Bool

module _ {ℓ} {A : Type ℓ} where
  -- the load in `spsc_new_block`, `spsc_front_block` and `spsc_empty`
  unfoldable pub load_front : ℕ → Weak A → Weak A
  load_front k w = record w {
    system = record w.system { queue = reload_front w.system.queue (w.front_stores.value k) };
    producer = relaxed_front k (w.front_stores.view k) w.producer;
  }

  unfoldable pub load_back : ℕ → Weak A → Weak A
  load_back k w = record w {
    system = record w.system { queue = reload_back w.system.queue (w.back_stores.value k) };
    consumer = relaxed_back k (w.back_stores.view k) w.consumer;
  }

  unfoldable pub poll_back : ℕ → Weak A → Weak A
  poll_back k w = record w {
    system = record w.system { queue = reload_back w.system.queue (w.back_stores.value k) };
    consumer = acquire_back k (w.back_stores.view k) w.consumer;
  }

  -- the ends of `spsc_new_block` and `spsc_front_block`
  unfoldable pub enter_write : Weak A → Weak A
  enter_write w = record w {
    system = record w.system { writing = true };
    producer = acquire_fence w.producer;
  }

  unfoldable pub enter_read : Weak A → Weak A
  enter_read w = record w {
    system = record w.system { reading = true };
    consumer = acquire_fence w.consumer;
  }

  -- an access to the block that the side holds
  unfoldable pub write_block : A → Weak A → Weak A
  write_block v w =
      let i = write_index w.system.queue in
      record w {
        system = record w.system { slot = update w.system.slot i v };
        accesses = update w.accesses i (suc (w.accesses i));
        producer = touch i (suc (w.accesses i)) w.producer;
        raced = w.raced || ltb (w.producer.current.block i) (w.accesses i);
      }

  unfoldable pub read_block : Weak A → Weak A
  read_block w =
      let i = read_index w.system.queue in
      record w {
        accesses = update w.accesses i (suc (w.accesses i));
        consumer = touch i (suc (w.accesses i)) w.consumer;
        raced = w.raced || ltb (w.consumer.current.block i) (w.accesses i);
      }

  -- the release stores of `spsc_push` and `spsc_pop`
  unfoldable pub push_back : Weak A → Weak A
  push_back w =
      let told = stored_back (suc w.back_stores.newest) w.producer in
      record w {
        system = publish_state w.system;
        back_stores = append_store w.back_stores (publish_state w.system).queue.back told.current;
        producer = told;
      }

  unfoldable pub pop_front : Weak A → Weak A
  pop_front w =
      let told = stored_front (suc w.front_stores.newest) w.consumer in
      record w {
        system = release_state w.system;
        front_stores =
            append_store w.front_stores (release_state w.system).queue.front told.current;
        consumer = told;
      }

  -- A load may return any store that is not older than one that the side already knows of.
  pub data WeakStep (w : Weak A) : Weak A → Type ℓ where
    wait_room :
        (k : ℕ)
        → w.system.writing ≡ false
        → looks_full w.system.queue ≡ true
        → w.producer.current.front ≤ k
        → k ≤ w.front_stores.newest
        → WeakStep w (load_front k w)
    claim :
        w.system.writing ≡ false → looks_full w.system.queue ≡ false → WeakStep w (enter_write w)
    fill : (v : A) → w.system.writing ≡ true → WeakStep w (write_block v w)
    publish : w.system.writing ≡ true → WeakStep w (push_back w)
    poll :
        (k : ℕ)
        → w.consumer.current.back ≤ k
        → k ≤ w.back_stores.newest
        → WeakStep w (poll_back k w)
    wait_block :
        (k : ℕ)
        → w.system.reading ≡ false
        → looks_empty w.system.queue ≡ true
        → w.consumer.current.back ≤ k
        → k ≤ w.back_stores.newest
        → WeakStep w (load_back k w)
    take : w.system.reading ≡ false → looks_empty w.system.queue ≡ false → WeakStep w (enter_read w)
    read : w.system.reading ≡ true → WeakStep w (read_block w)
    release : w.system.reading ≡ true → WeakStep w (pop_front w)

  pub data WeakReach (w : Weak A) : Weak A → Type ℓ where
    here : WeakReach w w
    next : {t u : Weak A} → WeakReach w t → WeakStep t u → WeakReach w u
