-- ===== src/Spsc/Weak/Tests.antt =====
-- A run in which the consumer first loads an old value of `back`, and only then the newest.
use micro_ros_demos.Prelude.{
  [], map, some, ℕ, ◌+◌, ◌*◌, ◌^◌, ◌≤◌, ◌≡◌, refl, true, false, List, ◌∷◌, ◌++◌, arith, length,
}
use micro_ros_demos.Spsc.{
  SpscQueue, block_at, spsc_front_block, spsc_new_block, cleared, looks_full, looks_empty,
  reload_back, spsc_push,
}
use micro_ros_demos.Spsc.Shared.{Reach, write_index, read_index}
use micro_ros_demos.Spsc.Invariant.{Counters}
use micro_ros_demos.Spsc.Init.{no_blocks}
use micro_ros_demos.Spsc.Weak.{
  Weak, acquire_fence, acquire_back, touch, stored_back, poll_back, enter_write, enter_read,
  write_block, read_block, push_back, claim, fill, publish, poll, take, read, WeakReach, here, next,
}
use micro_ros_demos.Spsc.Weak.Waiting.{weak_front_block_lem, weak_new_block_lem}
use micro_ros_demos.Spsc.Weak.Progress.{SameProducer, drains_lem}
use micro_ros_demos.Spsc.Weak.Order.{with_copies, one_order_lem}
use micro_ros_demos.Spsc.Fifo.{start}
use micro_ros_demos.Spsc.Weak.Safety.{weak_start, race_free, weak_fifo}

abbrev four : SpscQueue
four = cleared 320 (320 + 4 * 2048) 11 2

four-Counters : Counters four no_blocks
four-Counters = omega arith

abbrev w0 : Weak ℕ
w0 = weak_start four (λ i. 0)

abbrev w1 : Weak ℕ
w1 = push_back (write_block 7 (enter_write w0))

-- The consumer polls and sees the first store, then the second.
abbrev w2 : Weak ℕ
w2 = poll_back 1 (poll_back 0 w1)

abbrev w3 : Weak ℕ
w3 = enter_write (read_block (enter_read w2))

reach1 : WeakReach w0 w1
unfolding looks_full enter_write write_block
reach1 =
    next {t = write_block 7 (enter_write w0)}
      (next {t = enter_write w0} (next {t = w0} here (claim refl refl)) (fill 7 refl))
      (publish refl)

reach3 : WeakReach w0 w3
unfolding looks_full looks_empty spsc_push reload_back enter_write enter_read write_block read_block
    push_back poll_back acquire_fence acquire_back touch stored_back
reach3 =
    next {t = read_block (enter_read w2)}
      (next {t = enter_read w2}
        (next {t = w2}
          (next {t = poll_back 0 w1} (next {t = w1} reach1 (poll 0 (omega arith) (omega arith)))
            (poll 1 (omega arith) (omega arith)))
          (take refl refl))
        (read refl))
      (claim refl refl)

race_free_example :
    (w3.raced ≡ false)
    × (w3.system.writing ≡ true
        → w3.accesses (write_index w3.system.queue)
          ≤ w3.producer.current.block (write_index w3.system.queue))
    × (w3.system.reading ≡ true
        → w3.accesses (read_index w3.system.queue)
          ≤ w3.consumer.current.block (read_index w3.system.queue))
race_free_example = race_free four (λ i. 0) w3 four-Counters reach3

three_fifo :
    (rest : List ℕ) × (w3.system.sent ≡ w3.system.received ++ rest)
    × (length rest ≤ 2 ^ w3.system.queue.log2_capacity)
    × (w3.system.reading ≡ true
        → (later : List ℕ) × (rest ≡ w3.system.slot (read_index w3.system.queue) ∷ later))
three_fifo = weak_fifo four (λ i. 0) w3 four-Counters reach3

-- A poll that returns the old value still finds the queue empty.
stale_poll : looks_empty (poll_back 0 w1).system.queue ≡ true
unfolding looks_empty poll_back reload_back enter_write write_block push_back spsc_push
stale_poll = refl

-- Without the accesses that the fence orders, a read of the new block would race.
unordered : (read_block (push_back (write_block 7 (enter_write w0)))).raced ≡ true
unfolding read_block push_back write_block enter_write spsc_push acquire_fence touch stored_back
unordered = refl

-- The first load of `back` still sees what `spsc_init` stored.
weak_front_block_lem_example :
    (q' : SpscQueue) × (spsc_front_block
        (map w1.back_stores.value (0 ∷ []) ++ (w1.back_stores.value w1.back_stores.newest ∷ []))
        w1.system.queue
      ≡ some (block_at w1.system.queue w1.system.queue.consumer_cached_front, q'))
    × (looks_empty q' ≡ false)
unfolding push_back write_block enter_write spsc_push
weak_front_block_lem_example =
    (weak_front_block_lem four (λ i. 0) w1 four-Counters reach1 (0 ∷ []) (omega arith)).0
      (omega arith)

weak_new_block_lem_example :
    (q' : SpscQueue) × (spsc_new_block
        (map w1.front_stores.value (0 ∷ []) ++ (w1.front_stores.value w1.front_stores.newest ∷ []))
        w1.system.queue
      ≡ some (block_at w1.system.queue w1.system.queue.producer_cached_back, q'))
    × (looks_full q' ≡ false)
unfolding push_back write_block enter_write spsc_push stored_back touch acquire_fence
weak_new_block_lem_example =
    (weak_new_block_lem four (λ i. 0) w1 four-Counters reach1 (0 ∷ []) (omega arith)).0
      (omega arith)

one_order_lem_example :
    (front back : ℕ) × Reach (start four (λ i. 0)) (with_copies front back w3.system)
one_order_lem_example = one_order_lem four (λ i. 0) four-Counters w3 reach3

drains_lem_example :
    (w' : Weak ℕ) × WeakReach w1 w' × (w'.system.received ≡ w1.system.sent) × SameProducer w1 w'
drains_lem_example = drains_lem four (λ i. 0) w1 four-Counters reach1
