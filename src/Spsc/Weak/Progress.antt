-- ===== src/Spsc/Weak/Progress.antt =====
-- The consumer can always empty the queue, without a step of the producer.
use mathlib.Core.List.{append-nil}
use micro_ros_demos.Prelude.{
  ℕ, zero, suc, ◌+◌, ◌-◌, ◌%◌, ◌^◌, ◌≤◌, ◌<◌, ◌≡◌, ◌∙◌, refl, sym, ap, true, false, ◌++◌, arith,
  Bool-cases, inl, inr,
}
use micro_ros_demos.Spsc.{SpscQueue, looks_empty, reload_back}
use micro_ros_demos.Spsc.Invariant.{Ghost, Counters, window}
use micro_ros_demos.Spsc.Init.{no_blocks}
use micro_ros_demos.Spsc.Weak.{
  Weak, WeakReach, here, next, wait_block, take, release, load_back, enter_read, pop_front,
}
use micro_ros_demos.Spsc.Weak.Loads.{Sound, load_back-Sound, enter_read-Sound}
use micro_ros_demos.Spsc.Weak.Bounds.{Bounded, WeakReach-keeps_Bounded, weak_start-Bounded}
use micro_ros_demos.Spsc.Weak.Blocks.{pop_front-Sound}
use micro_ros_demos.Spsc.Weak.Safety.{weak_start, weak_start-Sound, WeakReach-Sound}
use micro_ros_demos.Spsc.Weak.Waiting.{newest_block}

module _ {ℓ} {A : Type ℓ} where
  append-WeakReach : {a b c : Weak A} → WeakReach a b → WeakReach b c → WeakReach a c
  append-WeakReach r here = r
  append-WeakReach r (next s st) = next (append-WeakReach r s) st

  -- What the producer has done and what it knows.
  pub record SameProducer (w w' : Weak A) : Type ℓ where
    pub side : w'.producer ≡ w.producer
    pub writing : w'.system.writing ≡ w.system.writing
    pub slot : w'.system.slot ≡ w.system.slot
    pub sent : w'.system.sent ≡ w.system.sent

  -- From `w` the consumer alone comes to a state in which it has popped `popped` blocks.
  record Consumes (w : Weak A) (popped pushed : ℕ) : Type ℓ where
    after : Weak A
    ghost : Ghost
    reach : WeakReach w after
    sound : Sound after ghost
    at_popped : ghost.popped ≡ popped
    at_pushed : ghost.pushed ≡ pushed
    same : SameProducer w after

  then_pop :
      {w u : Weak A}
      → WeakReach w u
      → (g : Ghost) → Sound u g
      → u.system.reading ≡ true
      → SameProducer w u
      → Consumes w (suc g.popped) g.pushed
  unfolding pop_front
  then_pop {u = u} r g v t s = record {
    after = pop_front u;
    ghost = record g { popped = suc g.popped };
    reach = next r (release t);
    sound = pop_front-Sound u g v t;
    at_popped = refl;
    at_pushed = refl;
    same = record { side = s.side; writing = s.writing; slot = s.slot; sent = s.sent };
  }

  then_take :
      {w u : Weak A}
      → WeakReach w u
      → (g : Ghost) → Sound u g
      → u.system.reading ≡ false
      → looks_empty u.system.queue ≡ false
      → SameProducer w u
      → Consumes w (suc g.popped) g.pushed
  unfolding enter_read
  then_take {u = u} r g v idle full s =
      then_pop (next r (take idle full)) g (enter_read-Sound u g v idle full) refl
        (record { side = s.side; writing = s.writing; slot = s.slot; sent = s.sent })

  reloaded :
      (w : Weak A) (g : Ghost)
      → Sound w g
      → Bounded w
      → g.popped < g.pushed
      → w.system.reading ≡ false
      → looks_empty w.system.queue ≡ true
      → Consumes w (suc g.popped) g.pushed
  unfolding load_back reload_back
  reloaded w g v b h idle bare =
      let newest = w.back_stores.newest in
      let low : w.consumer.current.back ≤ newest = b.consumer.0.1 in
      let value : w.back_stores.value newest ≡ g.pushed % 2 ^ 64 =
        v.producer.values newest (omega (arith, v.producer.newest))
        ∙ ap (λ k. k % 2 ^ 64) v.producer.newest in
      then_take (next here (wait_block newest idle bare low (omega arith)))
        (record g { seen_pushed = newest }) (load_back-Sound w g v newest low (omega arith)) idle
        (newest_block w.system.queue g (w.back_stores.value newest) v.inv.counters value h)
        (record { side = refl; writing = refl; slot = refl; sent = refl })

  one_block :
      (w : Weak A) (g : Ghost)
      → Sound w g
      → Bounded w
      → g.popped < g.pushed
      → Consumes w (suc g.popped) g.pushed
  one_block w g v b h =
      let same : SameProducer w w = record {
        side = refl;
        writing = refl;
        slot = refl;
        sent = refl;
      } in
      elim (Bool-cases w.system.reading) [
        | inl t ↦ then_pop here g v t same
        | inr idle ↦ elim (Bool-cases (looks_empty w.system.queue)) [
          | inl bare ↦ reloaded w g v b h idle bare
          | inr full ↦ then_take here g v idle full same
        ]
      ]

  SameProducer-trans : {a b c : Weak A} → SameProducer a b → SameProducer b c → SameProducer a c
  SameProducer-trans s t = record {
    side = t.side ∙ s.side;
    writing = t.writing ∙ s.writing;
    slot = t.slot ∙ s.slot;
    sent = t.sent ∙ s.sent;
  }

  all_blocks :
      (n : ℕ) (w : Weak A) (g : Ghost)
      → Sound w g
      → Bounded w
      → g.popped + n ≡ g.pushed
      → Consumes w g.pushed g.pushed
  all_blocks zero w g v b e = record {
    after = w;
    ghost = g;
    reach = here;
    sound = v;
    at_popped = omega arith;
    at_pushed = refl;
    same = record { side = refl; writing = refl; slot = refl; sent = refl };
  }
  all_blocks (suc n) w g v b e =
      let first = one_block w g v b (omega arith) in
      let rest =
        all_blocks n first.after first.ghost first.sound (WeakReach-keeps_Bounded first.reach b)
          (omega (arith, first.at_popped, first.at_pushed)) in
      record {
        after = rest.after;
        ghost = rest.ghost;
        reach = append-WeakReach first.reach rest.reach;
        sound = rest.sound;
        at_popped = rest.at_popped ∙ first.at_pushed;
        at_pushed = rest.at_pushed ∙ first.at_pushed;
        same = SameProducer-trans first.same rest.same;
      }

  -- From every state that the memory model allows from a new queue on, the consumer can come to
  -- have popped every block that was pushed, in order, while the producer does nothing and its
  -- blocks stay as they are.
  pub drains_lem :
      (q : SpscQueue) (slot : ℕ → A) (w : Weak A)
      → Counters q no_blocks
      → WeakReach (weak_start q slot) w
      → (w' : Weak A) × WeakReach w w' × (w'.system.received ≡ w.system.sent) × SameProducer w w'
  drains_lem q slot w c r =
      let (g, v) = WeakReach-Sound r no_blocks (weak_start-Sound q slot c) in
      let b = WeakReach-keeps_Bounded r (weak_start-Bounded q slot) in
      let d = all_blocks (g.pushed - g.popped) w g v b (omega (arith, v.inv.counters)) in
      let size : ℕ = 2 ^ d.after.system.queue.log2_capacity in
      let none_left : d.ghost.pushed - d.ghost.popped ≡ 0 =
        omega (arith, d.at_popped, d.at_pushed) in
      (
        d.after,
        d.reach,
        sym (
            sym d.same.sent
            ∙ d.sound.inv.fifo
            ∙ ap (λ n. d.after.system.received ++ window d.after.system.slot size d.ghost.popped n)
                none_left
            ∙ append-nil d.after.system.received),
        d.same,
      )
