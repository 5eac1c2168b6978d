-- ===== src/Spsc/Tests.antt =====
-- Runs of the queue on small inputs.
use micro_ros_demos.Prelude.{
  update, ℕ, ◌+◌, ◌-◌, ◌*◌, ◌^◌, ◌≤◌, ◌<◌, ◌≡◌, ◌≢◌, refl, true, false, List, [], ◌∷◌, ◌++◌, some,
  arith, length, if◌then◌else◌,
}
use micro_ros_demos.Spsc.{
  SpscQueue, cleared, spsc_init, ctz, looks_full, looks_empty, spsc_push, spsc_empty, reload_front,
  reload_back, block_at, spsc_new_block, spsc_front_block,
}
use micro_ros_demos.Spsc.Shared.{
  System, Reach, here, next, claim, fill, publish, poll, take, publish_state, write_index,
  read_index,
}
use micro_ros_demos.Spsc.Invariant.{Ghost, Counters, Inv, Step-Inv}
use micro_ros_demos.Spsc.Capacity.{spsc_init-odd}
use micro_ros_demos.Spsc.Init.{Geometry, Initial, no_blocks, spsc_init_lem, block_at_bounds}
use micro_ros_demos.Spsc.Fifo.{
  start, start-Inv, Reach-fifo, Reach-exclusive, Reach-oldest, Step-keeps_block,
}
use micro_ros_demos.Spsc.Waiting.{new_block_lem, front_block_lem}

-- Four blocks of 2048 bytes behind the 320 bytes of the queue itself.
abbrev four : SpscQueue
four = cleared 320 (320 + 4 * 2048) 11 2

four-Counters : Counters four no_blocks
four-Counters = omega arith

ctz_example : ctz 96 ≡ 5
unfolding ctz
ctz_example = refl

-- The regions of ping_pong_sel4.system: 0x100000 bytes hold 511 whole blocks, so one block is used.
abbrev region : ℕ
region = 0x5_000_000

region_init :
    spsc_init four (region + 320) (region + 0x100000) 11
    ≡ (true, cleared (region + 320) (region + 320 + 511 * 2048) 11 0)
unfolding spsc_init ctz
region_init = refl

-- The producer claims a block, writes 7 and pushes it, and claims the next; the consumer takes the
-- first.
abbrev s0 : System ℕ
s0 = start four (λ i. 0)

abbrev s1 : System ℕ
s1 = record s0 { writing = true }

abbrev s2 : System ℕ
s2 = record s1 { slot = update s1.slot (write_index s1.queue) 7 }

abbrev s3 : System ℕ
s3 = publish_state s2

abbrev s4 : System ℕ
s4 = record s3 { queue = (spsc_empty s3.queue).1 }

abbrev s5 : System ℕ
s5 = record s4 { reading = true }

abbrev s6 : System ℕ
s6 = record s5 { writing = true }

reach3 : Reach s0 s3
unfolding looks_full
reach3 =
    next {t = s2} (next {t = s1} (next {t = s0} here (claim refl refl)) (fill 7 refl))
      (publish refl)

reach6 : Reach s0 s6
unfolding looks_full looks_empty spsc_push spsc_empty
reach6 =
    next {t = s5} (next {t = s4} (next {t = s3} reach3 poll) (take refl refl)) (claim refl refl)

claim-Inv : Inv s1 no_blocks
unfolding looks_full
claim-Inv =
    Step-Inv {s = s0} {t = s1} (claim refl refl) no_blocks (start-Inv four (λ i. 0) four-Counters)

Reach-fifo_example :
    (rest : List ℕ) × (s6.sent ≡ s6.received ++ rest) × (length rest ≤ 2 ^ s6.queue.log2_capacity)
Reach-fifo_example = Reach-fifo four (λ i. 0) s6 four-Counters reach6

six_exclusive : write_index s6.queue ≢ read_index s6.queue
six_exclusive = Reach-exclusive four (λ i. 0) s6 four-Counters reach6 refl refl

oldest_of_six : (rest : List ℕ) × (s6.sent ≡ s6.received ++ s6.slot (read_index s6.queue) ∷ rest)
oldest_of_six = Reach-oldest four (λ i. 0) s6 four-Counters reach6 refl

abbrev g6 : Ghost
g6 = record { popped = 0; pushed = 1; seen_popped = 0; seen_pushed = 1 }

s6-Inv : Inv s6 g6
unfolding spsc_push spsc_empty
s6-Inv = record {
  counters = omega arith;
  write_ok = omega arith;
  read_ok = omega arith;
  fifo = refl;
}

read_keeps_block :
    (read_index s6.queue ≡ read_index s6.queue)
    × (update s6.slot (write_index s6.queue) 9 (read_index s6.queue)
        ≡ s6.slot (read_index s6.queue))
read_keeps_block =
    Step-keeps_block {s = s6} {t = record s6 { slot = update s6.slot (write_index s6.queue) 9 }}
      (fill 9 refl) g6 s6-Inv refl refl

new_block_of_six :
    spsc_new_block (s6.queue.front ∷ []) s6.queue
    ≡ some (
      block_at s6.queue s6.queue.producer_cached_back,
      if looks_full s6.queue then reload_front s6.queue s6.queue.front else s6.queue,
    )
unfolding spsc_push spsc_empty
new_block_of_six = (new_block_lem four (λ i. 0) s6 four-Counters reach6).0 (omega arith)

front_block_of_six :
    spsc_front_block (s6.queue.back ∷ []) s6.queue
    ≡ some (
      block_at s6.queue s6.queue.consumer_cached_front,
      if looks_empty s6.queue then reload_back s6.queue s6.queue.back else s6.queue,
    )
front_block_of_six = (front_block_lem four (λ i. 0) s6 four-Counters reach6).0 (omega arith)

spsc_init_lem_example :
    (2 ^ 11 ≤ 320 + 4 * 2048 - 320
      → ((spsc_init four 320 (320 + 4 * 2048) 11).0 ≡ true)
        × Initial (spsc_init four 320 (320 + 4 * 2048) 11).1 320 (320 + 4 * 2048) 11)
    × (320 + 4 * 2048 - 320 < 2 ^ 11 → spsc_init four 320 (320 + 4 * 2048) 11 ≡ (false, four))
spsc_init_lem_example =
    spsc_init_lem four 320 (320 + 4 * 2048) 11 (omega arith) (omega arith) (omega arith)

four-Geometry : Geometry four 320 (320 + 4 * 2048) 11
four-Geometry = record {
  starts = refl;
  block_size = refl;
  ends = refl;
  odd_part = 0;
  blocks = refl;
}

block_six_bounds : (320 ≤ block_at four 6) × (block_at four 6 + 2 ^ 11 ≤ 320 + 4 * 2048)
block_six_bounds = block_at_bounds four 320 (320 + 4 * 2048) 11 four-Geometry (omega arith) 6

-- A region of ping_pong_sel4 with one block pushed, which is as many as it takes of its 511.
abbrev r0 : System ℕ
r0 = start (spsc_init four (region + 320) (region + 0x100000) 11).1 (λ i. 0)

abbrev r1 : System ℕ
r1 = record r0 { writing = true }

abbrev r2 : System ℕ
r2 = record r1 { slot = update r1.slot (write_index r1.queue) 7 }

region-Reach : Reach r0 (publish_state r2)
unfolding looks_full spsc_init ctz
region-Reach =
    next {t = r2} (next {t = r1} (next {t = r0} here (claim refl refl)) (fill 7 refl))
      (publish refl)

spsc_init-odd_example :
    ((spsc_init four (region + 320) (region + 0x100000) 11).0 ≡ true)
    × (length (publish_state r2).sent ≤ length (publish_state r2).received + 1)
spsc_init-odd_example =
    spsc_init-odd four (region + 320) (region + 0x100000) 11 (λ i. 0) (publish_state r2)
      (omega arith) (omega arith) (omega arith) refl region-Reach
