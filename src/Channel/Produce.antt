-- ===== src/Channel/Produce.antt =====
-- How the producer's calls extend the packets that a channel holds.
use mathlib.Core.Path.{fun_ext, ap₂}
use micro_ros_demos.Prelude.{
  update, update_self, ℕ, suc, ◌+◌, ◌-◌, ◌*◌, ◌%◌, ◌^◌, ◌≤◌, ◌<◌, ◌≡◌, refl, ap, Bool-cases, inl,
  inr, ◌∙◌, [], ◌∷◌, ◌++◌, some, arith, ◌==◌, if◌then◌else◌,
}
use micro_ros_demos.Arithmetic.{mod-wrapped, two-pow-pos}
use micro_ros_demos.Memory.{Mem}
use micro_ros_demos.Spsc.{SpscQueue, block_at, spsc_new_block, looks_full, reload_front}
use micro_ros_demos.Spsc.Invariant.{
  Ghost, Counters, window, reload_front-Counters, not_full, window-update, window-snoc,
}
use micro_ros_demos.Spsc.Waiting.{new_block_reads}
use micro_ros_demos.Channel.{Channel, put_block}
use micro_ros_demos.Channel.Contents.{SameLayout, packets, blocks}

-- The producer's view of a queue with room: the address that `spsc_new_block` gives after one load
-- of `front`, and the queue after it.
pub record Room (q : SpscQueue) (g : Ghost) : Type 0 where
  pub next : SpscQueue
  pub seen : Ghost
  pub returns : spsc_new_block (q.front ∷ []) q ≡ some (block_at q q.producer_cached_back, next)
  pub counters : Counters next seen
  pub room_seen : seen.pushed < seen.seen_popped + 2 ^ next.log2_capacity
  pub same_popped : seen.popped ≡ g.popped
  pub same_pushed : seen.pushed ≡ g.pushed
  pub layout : SameLayout q next

pub room :
    (q : SpscQueue) (g : Ghost)
    → Counters q g
    → g.pushed < g.popped + 2 ^ q.log2_capacity
    → Room q g
unfolding reload_front
room q g k h = elim (Bool-cases (looks_full q)) [
  | inl e ↦ record {
    next = reload_front q q.front;
    seen = record g { seen_popped = g.popped };
    returns = rw e at (new_block_reads q g k h);
    counters = reload_front-Counters q g k;
    room_seen = h;
    same_popped = refl;
    same_pushed = refl;
    layout = record {
      same_begin = refl;
      same_block_size = refl;
      same_capacity = refl;
      same_back = refl;
    };
  }
  | inr e ↦ record {
    next = q;
    seen = g;
    returns = rw e at (new_block_reads q g k h);
    counters = k;
    room_seen = not_full q g k e;
    same_popped = refl;
    same_pushed = refl;
    layout = record {
      same_begin = refl;
      same_block_size = refl;
      same_capacity = refl;
      same_back = refl;
    };
  }
]

step : (i j d : ℕ) → i < j → i * d + d ≤ j * d
step i j d h = grind arith

same_block : (b i j d : ℕ) → 0 < d → ((b + i * d) == (b + j * d)) ≡ (j == i)
same_block b i j d h = ground (arith, step j i d, step i j d)

module _ (c : Channel) (g : Ghost) (m : Mem) where
  abbrev at : ℕ
  at = block_at c.queue c.queue.producer_cached_back

  blocks-put_block :
      Counters c.queue g
      → blocks (put_block c at m) ≡ update (blocks c) (g.pushed % 2 ^ c.queue.log2_capacity) m
  unfolding block_at
  blocks-put_block k =
      let e : c.queue.producer_cached_back % 2 ^ c.queue.log2_capacity
          ≡ g.pushed % 2 ^ c.queue.log2_capacity =
        ap (λ t. t % 2 ^ c.queue.log2_capacity) k.cached_back_ok
        ∙ mod-wrapped g.pushed c.queue.log2_capacity (omega (arith, k.small)) in
      fun_ext λ i. rw e (
        ap (λ b. if b then m else blocks c i)
          (same_block c.queue.begin i (g.pushed % 2 ^ c.queue.log2_capacity)
            (2 ^ c.queue.log2_block_size) (two-pow-pos c.queue.log2_block_size)))

  -- Writing the claimed block and pushing it puts the written packet behind the others.
  pub packets-put_block :
      Counters c.queue g
      → g.popped ≤ g.pushed
      → g.pushed < g.popped + 2 ^ c.queue.log2_capacity
      → packets (put_block c at m) (record g { pushed = suc g.pushed }) ≡ packets c g ++ (m ∷ [])
  packets-put_block k o h =
      let size : ℕ = 2 ^ c.queue.log2_capacity in
      let slot : ℕ → Mem = update (blocks c) (g.pushed % size) m in
      let n : ℕ = g.pushed - g.popped in
      let count : suc g.pushed - g.popped ≡ suc n = omega arith in
      let last : g.popped + n ≡ g.pushed = omega arith in
      ap₂ (λ f k. window f size g.popped k) (blocks-put_block k) count
      ∙ window-snoc slot size g.popped n
      ∙ ap₂ (λ xs x. xs ++ (x ∷ []))
          (window-update (blocks c) size g.pushed m g.popped n (omega arith) h)
          (ap (λ k. slot (k % size)) last ∙ update_self (blocks c) (g.pushed % size) m)
