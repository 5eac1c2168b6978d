-- ===== src/Spsc/Invariant.antt =====
-- The invariant of the shared queue. Ghost counters that do not wrap stand behind the wrapping ones.
use mathlib.Core.List.{append_assoc}
use micro_ros_demos.Prelude.{
  update, ℕ, zero, suc, ◌+◌, ◌-◌, ◌%◌, ◌^◌, ◌≤◌, ◌<◌, ◌≡◌, refl, sym, ap, ◌∙◌, true, false, List,
  [], ◌∷◌, ◌++◌, arith,
}
use micro_ros_demos.Arithmetic.{two-pow-le, mod-wrapped, mod-ne_of_near}
use micro_ros_demos.Spsc.{
  SpscQueue, looks_full, reload_front, spsc_push, spsc_empty, looks_empty, reload_back, spsc_pop,
}
use micro_ros_demos.Spsc.Shared.{
  System, Step, wait_room, claim, fill, publish, poll, wait_block, take, release, write_index,
  read_index, publish_state, release_state,
}

-- How often each side has pushed and popped, and what the other side has seen of it.
pub record Ghost : Type 0 where
  pub popped : ℕ
  pub pushed : ℕ
  pub seen_popped : ℕ
  pub seen_pushed : ℕ

-- The stored counters are the ghost ones modulo 2^64, in order, at most one capacity apart.
pub record Counters (q : SpscQueue) (g : Ghost) : Type 0 where
  pub small : q.log2_capacity ≤ 63
  pub front_ok : q.front ≡ g.popped % 2 ^ 64
  pub cached_front_ok : q.consumer_cached_front ≡ g.popped % 2 ^ 64
  pub back_ok : q.back ≡ g.pushed % 2 ^ 64
  pub cached_back_ok : q.producer_cached_back ≡ g.pushed % 2 ^ 64
  pub seen_front_ok : q.producer_cached_front ≡ g.seen_popped % 2 ^ 64
  pub seen_back_ok : q.consumer_cached_back ≡ g.seen_pushed % 2 ^ 64
  pub seen_popped_le : g.seen_popped ≤ g.popped
  pub popped_le : g.popped ≤ g.seen_pushed
  pub seen_pushed_le : g.seen_pushed ≤ g.pushed
  pub room : g.pushed ≤ g.seen_popped + 2 ^ q.log2_capacity

-- The blocks from counter `f` on, oldest first.
abbrev pub window {ℓ} : {A : Type ℓ} → (ℕ → A) → ℕ → ℕ → ℕ → List A
window slot size f zero = []
window slot size f (suc n) = slot (f % size) ∷ window slot size (f + 1) n

-- The queue's contents are what was pushed and not yet popped.
pub record Inv {ℓ} {A : Type ℓ} (s : System A) (g : Ghost) : Type ℓ where
  pub counters : Counters s.queue g
  pub write_ok : s.writing ≡ true → g.pushed < g.seen_popped + 2 ^ s.queue.log2_capacity
  pub read_ok : s.reading ≡ true → g.popped < g.seen_pushed
  pub fifo :
      s.sent
      ≡ s.received ++ window s.slot (2 ^ s.queue.log2_capacity) g.popped (g.pushed - g.popped)

module _ (q : SpscQueue) (g : Ghost) (k : Counters q g) where
  pub not_full : looks_full q ≡ false → g.pushed < g.seen_popped + 2 ^ q.log2_capacity
  unfolding looks_full
  not_full h = ground (arith, two-pow-le q.log2_capacity 63 k.small)

  pub not_empty : looks_empty q ≡ false → g.popped < g.seen_pushed
  unfolding looks_empty
  not_empty h = ground arith

  pub write_index-ghost : write_index q ≡ g.pushed % 2 ^ q.log2_capacity
  write_index-ghost = rw k.cached_back_ok (mod-wrapped g.pushed q.log2_capacity (omega arith))

  pub read_index-ghost : read_index q ≡ g.popped % 2 ^ q.log2_capacity
  read_index-ghost = rw k.cached_front_ok (mod-wrapped g.popped q.log2_capacity (omega arith))

  pub reload_front-Counters :
      Counters (reload_front q q.front) (record g { seen_popped = g.popped })
  unfolding reload_front
  reload_front-Counters = omega arith

  pub reload_back-Counters : Counters (reload_back q q.back) (record g { seen_pushed = g.pushed })
  unfolding reload_back
  reload_back-Counters = omega arith

  pub push-Counters :
      g.pushed < g.seen_popped + 2 ^ q.log2_capacity
      → Counters (spsc_push q) (record g { pushed = suc g.pushed })
  unfolding spsc_push
  push-Counters h = omega arith

  pub pop-Counters :
      g.popped < g.seen_pushed → Counters (spsc_pop q) (record g { popped = suc g.popped })
  unfolding spsc_pop
  pop-Counters h = omega arith

module _ {ℓ} {A : Type ℓ} where
  pub window-snoc :
      (slot : ℕ → A) (size f n : ℕ)
      → window slot size f (suc n) ≡ window slot size f n ++ (slot ((f + n) % size) ∷ [])
  window-snoc slot size f zero = ap (λ k. slot (k % size) ∷ []) (omega arith)
  window-snoc slot size f (suc n) = ap (◌∷◌ (slot (f % size))) (
      window-snoc slot size (f + 1) n
      ∙ ap (λ k. window slot size (f + 1) n ++ (slot (k % size) ∷ [])) (omega arith))

  -- A write to the block that comes after a window leaves the window alone.
  pub window-update :
      (slot : ℕ → A) (size y : ℕ) (v : A) (f n : ℕ)
      → f + n ≤ y
      → y < f + size
      → window (update slot (y % size) v) size f n ≡ window slot size f n
  window-update slot size y v f zero h k = refl
  window-update slot size y v f (suc n) h k = ground (
    arith,
    mod-ne_of_near f y size (omega arith) k,
    window-update slot size y v (f + 1) n (omega arith) (omega arith),
  )

  push-fifo :
      (sent received : List A) (slot : ℕ → A) (size f b : ℕ)
      → f ≤ b
      → sent ≡ received ++ window slot size f (b - f)
      → sent ++ (slot (b % size) ∷ []) ≡ received ++ window slot size f (suc b - f)
  push-fifo sent received slot size f b h e =
      rw (e, append_assoc received (window slot size f (b - f)) (slot (b % size) ∷ []))
        (ap (◌++◌ received) (
          ap (λ k. window slot size f (b - f) ++ (slot (k % size) ∷ [])) (omega arith)
          ∙ sym (window-snoc slot size f (b - f))
          ∙ ap (window slot size f) {x = suc (b - f)} (omega arith)))

  pop-fifo :
      (sent received : List A) (slot : ℕ → A) (size f b : ℕ)
      → f < b
      → sent ≡ received ++ window slot size f (b - f)
      → sent ≡ (received ++ (slot (f % size) ∷ [])) ++ window slot size (suc f) (b - suc f)
  pop-fifo sent received slot size f b h e =
      e
      ∙ ap (λ k. received ++ window slot size f k)
          (let d : b - f ≡ suc (b - suc f) = omega arith in d)
      ∙ ap (λ k. received ++ slot (f % size) ∷ window slot size k (b - suc f)) (omega arith)
      ∙ sym (append_assoc received (slot (f % size) ∷ []) (window slot size (suc f) (b - suc f)))

  -- What a step does to the ghost counters.
  abbrev pub advance : {s t : System A} → Step s t → Ghost → Ghost
  advance (wait_room _ _) g = record g { seen_popped = g.popped }
  advance (claim _ _) g = g
  advance (fill _ _) g = g
  advance (publish _) g = record g { pushed = suc g.pushed }
  advance poll g = record g { seen_pushed = g.pushed }
  advance (wait_block _ _) g = record g { seen_pushed = g.pushed }
  advance (take _ _) g = g
  advance (release _) g = record g { popped = suc g.popped }

  publish-Inv :
      (s : System A) (g : Ghost)
      → Inv s g
      → s.writing ≡ true
      → Inv (publish_state s) (record g { pushed = suc g.pushed })
  unfolding spsc_push
  publish-Inv s g v w = record {
    counters = push-Counters s.queue g v.counters (v.write_ok w);
    write_ok = ground arith;
    read_ok = v.read_ok;
    fifo = rw (write_index-ghost s.queue g v.counters) (
        push-fifo s.sent s.received s.slot (2 ^ s.queue.log2_capacity) g.popped g.pushed
          (omega arith) v.fifo);
  }

  release-Inv :
      (s : System A) (g : Ghost)
      → Inv s g
      → s.reading ≡ true
      → Inv (release_state s) (record g { popped = suc g.popped })
  unfolding spsc_pop
  release-Inv s g v r = record {
    counters = pop-Counters s.queue g v.counters (v.read_ok r);
    write_ok = v.write_ok;
    read_ok = ground arith;
    fifo = rw (read_index-ghost s.queue g v.counters) (
        pop-fifo s.sent s.received s.slot (2 ^ s.queue.log2_capacity) g.popped g.pushed
          (omega (arith, v.read_ok r)) v.fifo);
  }

  fill-Inv :
      (s : System A) (g : Ghost) (x : A)
      → Inv s g
      → s.writing ≡ true
      → Inv (record s { slot = update s.slot (write_index s.queue) x }) g
  fill-Inv s g x v w = record {
    counters = v.counters;
    write_ok = v.write_ok;
    read_ok = v.read_ok;
    fifo =
        rw
          (
            write_index-ghost s.queue g v.counters,
            window-update s.slot (2 ^ s.queue.log2_capacity) g.pushed x g.popped
                (g.pushed - g.popped) (omega arith) (omega (arith, v.write_ok w)),
          )
          v.fifo;
  }

  -- Every access of either side keeps the invariant.
  pub Step-Inv : {s t : System A} (st : Step s t) (g : Ghost) → Inv s g → Inv t (advance st g)
  unfolding spsc_empty reload_front reload_back
  Step-Inv {s = s} (wait_room w e) g v = record {
    counters = reload_front-Counters s.queue g v.counters;
    write_ok = ground arith;
    read_ok = v.read_ok;
    fifo = v.fifo;
  }
  Step-Inv {s = s} (claim w e) g v = record {
    counters = v.counters;
    write_ok = λ _. not_full s.queue g v.counters e;
    read_ok = v.read_ok;
    fifo = v.fifo;
  }
  Step-Inv {s = s} (fill x w) g v = fill-Inv s g x v w
  Step-Inv {s = s} (publish w) g v = publish-Inv s g v w
  Step-Inv {s = s} poll g v = record {
    counters = reload_back-Counters s.queue g v.counters;
    write_ok = v.write_ok;
    read_ok = λ r. omega (arith, v.read_ok r);
    fifo = v.fifo;
  }
  Step-Inv {s = s} (wait_block r e) g v = record {
    counters = reload_back-Counters s.queue g v.counters;
    write_ok = v.write_ok;
    read_ok = ground arith;
    fifo = v.fifo;
  }
  Step-Inv {s = s} (take r e) g v = record {
    counters = v.counters;
    write_ok = v.write_ok;
    read_ok = λ _. not_empty s.queue g v.counters e;
    fifo = v.fifo;
  }
  Step-Inv {s = s} (release r) g v = release-Inv s g v r
