-- ===== src/Channel/Contents.antt =====
-- The packets that a channel holds, oldest first, and how the consumer's calls walk through them.
use mathlib.Core.Path.{ap₂}
use micro_ros_demos.Prelude.{
  ℕ, suc, ◌+◌, ◌-◌, ◌*◌, ◌%◌, ◌^◌, ◌<◌, ◌≡◌, refl, ap, sym, Bool-cases, inl, inr, ◌∙◌, List, [],
  ◌∷◌, some, arith,
}
use micro_ros_demos.Arithmetic.{mod-wrapped}
use micro_ros_demos.Memory.{Mem}
use micro_ros_demos.Spsc.{SpscQueue, block_at, spsc_front_block, looks_empty, reload_back}
use micro_ros_demos.Spsc.Invariant.{Ghost, Counters, window, reload_back-Counters, not_empty}
use micro_ros_demos.Spsc.Waiting.{front_block_reads}
use micro_ros_demos.Spsc.Fifo.{window-cons}
use micro_ros_demos.Channel.{Channel}

-- The blocks from counter `popped` up to `pushed`.
abbrev pub blocks : Channel → ℕ → Mem
blocks c i = c.block (c.queue.begin + i * 2 ^ c.queue.log2_block_size)

abbrev pub packets : Channel → Ghost → List Mem
packets c g = window (blocks c) (2 ^ c.queue.log2_capacity) g.popped (g.pushed - g.popped)

-- Nothing that the consumer does touches these fields.
pub record SameLayout (q r : SpscQueue) : Type 0 where
  pub same_begin : r.begin ≡ q.begin
  pub same_block_size : r.log2_block_size ≡ q.log2_block_size
  pub same_capacity : r.log2_capacity ≡ q.log2_capacity
  pub same_back : r.back ≡ q.back

-- The consumer's view of a queue with a block in it: the address that `spsc_front_block` gives
-- after one load of `back`, and the queue after it.
pub record Front (q : SpscQueue) (g : Ghost) : Type 0 where
  pub next : SpscQueue
  pub seen : Ghost
  pub returns : spsc_front_block (q.back ∷ []) q ≡ some (block_at q q.consumer_cached_front, next)
  pub counters : Counters next seen
  pub some_seen : seen.popped < seen.seen_pushed
  pub same_popped : seen.popped ≡ g.popped
  pub same_pushed : seen.pushed ≡ g.pushed
  pub layout : SameLayout q next

pub front : (q : SpscQueue) (g : Ghost) → Counters q g → g.popped < g.pushed → Front q g
unfolding reload_back
front q g k h = elim (Bool-cases (looks_empty q)) [
  | inl e ↦ record {
    next = reload_back q q.back;
    seen = record g { seen_pushed = g.pushed };
    returns = rw e at (front_block_reads q g k h);
    counters = reload_back-Counters q g k;
    some_seen = h;
    same_popped = refl;
    same_pushed = refl;
    layout = record {
      same_begin = refl;
      same_block_size = refl;
      same_capacity = refl;
      same_back = refl;
    };
  }
  | inr e ↦ record {
    next = q;
    seen = g;
    returns = rw e at (front_block_reads q g k h);
    counters = k;
    some_seen = not_empty q g k e;
    same_popped = refl;
    same_pushed = refl;
    layout = record {
      same_begin = refl;
      same_block_size = refl;
      same_capacity = refl;
      same_back = refl;
    };
  }
]

module _ (c : Channel) (g : Ghost) where
  -- The oldest packet is the one at the address that `spsc_front_block` gives.
  pub packets-front :
      Counters c.queue g
      → g.popped < g.pushed
      → packets c g
        ≡ c.block (block_at c.queue c.queue.consumer_cached_front)
          ∷ packets c (record g { popped = suc g.popped })
  unfolding block_at
  packets-front k h =
      window-cons (blocks c) (2 ^ c.queue.log2_capacity) g.popped (g.pushed - g.popped)
        (omega arith)
      ∙ ap₂ ◌∷◌
          (ap (blocks c) (
            sym (mod-wrapped g.popped c.queue.log2_capacity (omega arith))
            ∙ ap (λ t. t % 2 ^ c.queue.log2_capacity) (sym k.cached_front_ok)))
          (ap₂ (window (blocks c) (2 ^ c.queue.log2_capacity))
            (let e : g.popped + 1 ≡ suc g.popped = omega arith in e)
            (let e : g.pushed - g.popped - 1 ≡ g.pushed - suc g.popped = omega arith in e))

  pub packets-layout :
      (q : SpscQueue) (h : Ghost)
      → q.begin ≡ c.queue.begin
      → q.log2_block_size ≡ c.queue.log2_block_size
      → q.log2_capacity ≡ c.queue.log2_capacity
      → h.popped ≡ g.popped
      → h.pushed ≡ g.pushed
      → packets (record c { queue = q }) h ≡ packets c g
  packets-layout q h b l k e f = rw (b, l, k, e, f)
