-- ===== src/Spsc/Shared.antt =====
-- One producer and one consumer over the memory that they share, an atomic access at a time. The
-- accesses are taken in one global order; Weak has them without it.
use micro_ros_demos.Prelude.{ℕ, ◌%◌, ◌^◌, ◌≡◌, Bool, true, false, List, [], ◌∷◌, ◌++◌, update}
use micro_ros_demos.Spsc.{
  SpscQueue, looks_full, reload_front, spsc_push, spsc_empty, looks_empty, reload_back, spsc_pop,
}

-- `slot i` is what the block with index `i` holds. `writing` says that the producer holds a block
-- from `spsc_new_block`, `reading` that the consumer holds one from `spsc_front_block`. The two
-- lists log what was pushed and what was popped, oldest first.
pub record System {ℓ} (A : Type ℓ) : Type ℓ where
  pub queue : SpscQueue
  pub slot : ℕ → A
  pub writing : Bool
  pub reading : Bool
  pub sent : List A
  pub received : List A

-- the index of the block that the producer, or the consumer, holds
abbrev pub write_index : SpscQueue → ℕ
write_index q = q.producer_cached_back % 2 ^ q.log2_capacity

abbrev pub read_index : SpscQueue → ℕ
read_index q = q.consumer_cached_front % 2 ^ q.log2_capacity

module _ {ℓ} {A : Type ℓ} where
  abbrev pub publish_state : System A → System A
  publish_state s = record s {
    queue = spsc_push s.queue;
    writing = false;
    sent = s.sent ++ (s.slot (write_index s.queue) ∷ []);
  }

  abbrev pub release_state : System A → System A
  release_state s = record s {
    queue = spsc_pop s.queue;
    reading = false;
    received = s.received ++ (s.slot (read_index s.queue) ∷ []);
  }

  pub data Step (s : System A) : System A → Type ℓ where
    -- a round of the loop in `spsc_new_block`, and its exit
    wait_room :
        s.writing ≡ false
        → looks_full s.queue ≡ true
        → Step s (record s { queue = reload_front s.queue s.queue.front })
    claim : s.writing ≡ false → looks_full s.queue ≡ false → Step s (record s { writing = true })
    -- the producer writes the block that it holds
    fill :
        (v : A)
        → s.writing ≡ true
        → Step s (record s { slot = update s.slot (write_index s.queue) v })
    publish : s.writing ≡ true → Step s (publish_state s)
    -- `spsc_empty`
    poll : Step s (record s { queue = (spsc_empty s.queue).1 })
    -- a round of the loop in `spsc_front_block`, and its exit
    wait_block :
        s.reading ≡ false
        → looks_empty s.queue ≡ true
        → Step s (record s { queue = reload_back s.queue s.queue.back })
    take : s.reading ≡ false → looks_empty s.queue ≡ false → Step s (record s { reading = true })
    release : s.reading ≡ true → Step s (release_state s)

  pub data Reach (s : System A) : System A → Type ℓ where
    here : Reach s s
    next : {t u : System A} → Reach s t → Step t u → Reach s u
