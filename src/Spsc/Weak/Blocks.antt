-- ===== src/Spsc/Weak/Blocks.antt =====
-- The accesses to the blocks and the release stores keep the invariant.
use native.Mathlib.Nat.{add-zero, add-mod_right}
use micro_ros_demos.Prelude.{ℕ, suc, ◌%◌, ◌^◌, ◌≡◌, refl, sym, true, update, arith}
use micro_ros_demos.Arithmetic.{mod-ne_of_near}
use micro_ros_demos.Spsc.{spsc_push, spsc_pop}
use micro_ros_demos.Spsc.Shared.{System, write_index, read_index, publish_state, release_state}
use micro_ros_demos.Spsc.Shared as Shared
use micro_ros_demos.Spsc.Invariant.{Ghost, write_index-ghost, read_index-ghost, Step-Inv}
use micro_ros_demos.Spsc.Weak.{
  Weak, touch, stored_front, stored_back, write_block, read_block, push_back, pop_front,
}
use micro_ros_demos.Spsc.Weak.Half.{Half, touch-Half, other-Half, store-Half, receive-Half}
use micro_ros_demos.Spsc.Weak.Loads.{Sound}

module _ {ℓ} {A : Type ℓ} (w : Weak A) (g : Ghost) (v : Sound w g) where
  abbrev size : ℕ
  size = 2 ^ w.system.queue.log2_capacity

  abbrev touched : ℕ → ℕ → ℕ
  touched i = update w.accesses i (suc (w.accesses i))

  write_block-producer :
      (i : ℕ)
      → i ≡ g.pushed % size
      → Half
          (touched i)
          (touch i (suc (w.accesses i)) w.producer)
          w.back_stores
          w.front_stores
          size
          size
          g.pushed
          g.popped
          g.seen_popped
          w.system.writing
  write_block-producer i e = rw e (touch-Half v.producer (suc (w.accesses (g.pushed % size))))

  write_block-consumer :
      (i : ℕ)
      → i ≡ g.pushed % size
      → w.system.writing ≡ true
      → Half
          (touched i)
          w.consumer
          w.front_stores
          w.back_stores
          size
          0
          g.popped
          g.pushed
          g.seen_pushed
          w.system.reading
  write_block-consumer i e t = rw e (
      other-Half v.consumer (g.pushed % size) (suc (w.accesses (g.pushed % size)))
        (λ y p q.
          mod-ne_of_near y g.pushed size (omega arith)
            (omega (arith, v.inv.write_ok t, v.inv.counters)))
        (λ r.
          mod-ne_of_near g.popped g.pushed size (omega (arith, v.inv.read_ok r, v.inv.counters))
            (omega (arith, v.inv.write_ok t, v.inv.counters))))

  pub write_block-Sound : (x : A) → w.system.writing ≡ true → Sound (write_block x w) g
  unfolding write_block touch
  write_block-Sound x t =
      let e = write_index-ghost w.system.queue g v.inv.counters in
      record {
        inv = Step-Inv (Shared.fill x t) g v.inv;
        producer = write_block-producer (write_index w.system.queue) e;
        consumer = write_block-consumer (write_index w.system.queue) e t;
        seen_front = v.seen_front;
        seen_back = v.seen_back;
        calm = rw e (ground (arith, v.calm, v.producer.held t));
      }

  read_block-consumer :
      (i : ℕ)
      → i ≡ g.popped % size
      → Half
          (touched i)
          (touch i (suc (w.accesses i)) w.consumer)
          w.front_stores
          w.back_stores
          size
          0
          g.popped
          g.pushed
          g.seen_pushed
          w.system.reading
  read_block-consumer i e = rw e (touch-Half v.consumer (suc (w.accesses (g.popped % size))))

  read_block-producer :
      (i : ℕ)
      → i ≡ g.popped % size
      → w.system.reading ≡ true
      → Half
          (touched i)
          w.producer
          w.back_stores
          w.front_stores
          size
          size
          g.pushed
          g.popped
          g.seen_popped
          w.system.writing
  read_block-producer i e t = rw e (
      other-Half v.producer (g.popped % size) (suc (w.accesses (g.popped % size)))
        (λ y p q r.
          mod-ne_of_near g.popped y size (omega (arith, v.inv.read_ok t, v.inv.counters))
            (omega arith) (sym r))
        (λ s r.
          mod-ne_of_near g.popped g.pushed size (omega (arith, v.inv.read_ok t, v.inv.counters))
            (omega (arith, v.inv.write_ok s, v.inv.counters)) (sym r)))

  pub read_block-Sound : w.system.reading ≡ true → Sound (read_block w) g
  unfolding read_block touch
  read_block-Sound t =
      let e = read_index-ghost w.system.queue g v.inv.counters in
      record {
        inv = v.inv;
        producer = read_block-producer (read_index w.system.queue) e t;
        consumer = read_block-consumer (read_index w.system.queue) e;
        seen_front = v.seen_front;
        seen_back = v.seen_back;
        calm = rw e (ground (arith, v.calm, v.consumer.held t));
      }

  pub push_back-Sound :
      w.system.writing ≡ true → Sound (push_back w) (record g { pushed = suc g.pushed })
  unfolding push_back spsc_push stored_back
  push_back-Sound t = record {
    inv = Step-Inv (Shared.publish t) g v.inv;
    producer =
        store-Half v.producer (stored_back (suc w.back_stores.newest) w.producer)
          (spsc_push w.system.queue).back t (omega (arith, v.inv.counters)) (λ i. refl) (λ i. refl);
    consumer =
        receive-Half v.consumer (spsc_push w.system.queue).back
          (stored_back (suc w.back_stores.newest) w.producer).current v.producer.newest
          (omega (arith, v.inv.counters)) v.producer.told (rw add-zero (v.producer.held t));
    seen_front = v.seen_front;
    seen_back = v.seen_back;
    calm = v.calm;
  }

  pub pop_front-Sound :
      w.system.reading ≡ true → Sound (pop_front w) (record g { popped = suc g.popped })
  unfolding pop_front spsc_pop stored_front
  pop_front-Sound t = record {
    inv = Step-Inv (Shared.release t) g v.inv;
    producer =
        receive-Half v.producer (spsc_pop w.system.queue).front
          (stored_front (suc w.front_stores.newest) w.consumer).current v.consumer.newest
          (omega (arith, v.inv.counters)) v.consumer.told (rw add-mod_right (v.consumer.held t));
    consumer =
        store-Half v.consumer (stored_front (suc w.front_stores.newest) w.consumer)
          (spsc_pop w.system.queue).front t (omega (arith, v.inv.counters)) (λ i. refl) (λ i. refl);
    seen_front = v.seen_front;
    seen_back = v.seen_back;
    calm = v.calm;
  }
