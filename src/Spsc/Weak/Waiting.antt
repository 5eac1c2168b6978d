-- ===== src/Spsc/Weak/Waiting.antt =====
-- When the loops of `spsc_new_block` and `spsc_front_block` end, whatever old values their loads
-- return.
use micro_ros_demos.Prelude.{
  ℕ, ◌+◌, ◌%◌, ◌^◌, ◌≤◌, ◌<◌, ◌≡◌, refl, subst, true, false, List, [], ◌∷◌, ◌++◌, map, some, none,
  arith, length, Bool-cases, inl, inr,
}
use micro_ros_demos.Arithmetic.{two-pow-le}
use micro_ros_demos.Spsc.{
  SpscQueue, looks_full, reload_front, looks_empty, reload_back, spsc_new_block, spsc_front_block,
  block_at,
}
use micro_ros_demos.Spsc.Invariant.{Ghost, Counters}
use micro_ros_demos.Spsc.Init.{no_blocks}
use micro_ros_demos.Spsc.Fifo.{fill_level}
use micro_ros_demos.Spsc.Weak.{Weak, WeakReach}
use micro_ros_demos.Spsc.Weak.Loads.{stale_front-Counters, stale_back-Counters}
use micro_ros_demos.Spsc.Weak.Safety.{weak_start, weak_start-Sound, WeakReach-Sound}

-- Stores that loads one after the other may see, from number `low` on and up to `high`.
abbrev pub Loads : ℕ → ℕ → List ℕ → Type 0
Loads low high [] = Unit {0}
Loads low high (k ∷ ks) = (low ≤ k) × (k ≤ high) × Loads k high ks

Loads-lower : (a b high : ℕ) (ks : List ℕ) → a ≤ b → Loads b high ks → Loads a high ks
Loads-lower a b high [] h l = tt
Loads-lower a b high (k ∷ ks) h l = (omega (arith, l.0), l.1, l.2)

pub newest_room :
    (q : SpscQueue) (g : Ghost) (x : ℕ)
    → Counters q g
    → x ≡ g.popped % 2 ^ 64
    → g.pushed < g.popped + 2 ^ q.log2_capacity
    → looks_full (reload_front q x) ≡ false
unfolding looks_full reload_front
newest_room q g x c e h = ground (arith, two-pow-le q.log2_capacity 63 c.small)

no_room :
    (q : SpscQueue) (g : Ghost)
    → Counters q g
    → g.pushed ≡ g.popped + 2 ^ q.log2_capacity
    → looks_full q ≡ true
unfolding looks_full
no_room q g c h = ground (arith, two-pow-le q.log2_capacity 63 c.small)

pub newest_block :
    (q : SpscQueue) (g : Ghost) (x : ℕ)
    → Counters q g
    → x ≡ g.pushed % 2 ^ 64
    → g.popped < g.pushed
    → looks_empty (reload_back q x) ≡ false
unfolding looks_empty reload_back
newest_block q g x c e h = ground (arith, two-pow-le q.log2_capacity 63 c.small)

no_block : (q : SpscQueue) (g : Ghost) → Counters q g → g.pushed ≡ g.popped → looks_empty q ≡ true
unfolding looks_empty
no_block q g c h = ground arith

module _ (value : ℕ → ℕ) where
  new_block-ends :
      (ks : List ℕ) (q : SpscQueue) (g : Ghost)
      → ((k : ℕ) → k ≤ g.popped → value k ≡ k % 2 ^ 64)
      → Counters q g
      → Loads g.seen_popped g.popped ks
      → g.pushed < g.popped + 2 ^ q.log2_capacity
      → (q' : SpscQueue) × (spsc_new_block (map value ks ++ (value g.popped ∷ [])) q
          ≡ some (block_at q q.producer_cached_back, q'))
        × (looks_full q' ≡ false)
  unfolding spsc_new_block reload_front block_at
  new_block-ends [] q g e c l h =
      let room = newest_room q g (value g.popped) c (e g.popped (omega arith)) h in
      elim (Bool-cases (looks_full q)) [
        | inl full ↦ (reload_front q (value g.popped), rw (full, room) refl, room)
        | inr free ↦ (q, rw free refl, free)
      ]
  new_block-ends (k ∷ ks) q g e c l h = elim (Bool-cases (looks_full q)) [
    | inl full ↦
        let (q', runs, free) =
          new_block-ends ks (reload_front q (value k)) (record g { seen_popped = k }) e
            (stale_front-Counters q g (value k) k c (e k l.1) l.0 l.1) l.2 h in
        (q', rw full runs, free)
    | inr free ↦ (q, rw free refl, free)
  ]

  new_block-waits :
      (ks : List ℕ) (q : SpscQueue) (g : Ghost)
      → ((k : ℕ) → k ≤ g.popped → value k ≡ k % 2 ^ 64)
      → Counters q g
      → Loads g.seen_popped g.popped ks
      → g.pushed ≡ g.popped + 2 ^ q.log2_capacity
      → spsc_new_block (map value ks) q ≡ none
  unfolding spsc_new_block reload_front
  new_block-waits [] q g e c l h = rw (no_room q g c h) refl
  new_block-waits (k ∷ ks) q g e c l h = rw (no_room q g c h) (
      new_block-waits ks (reload_front q (value k)) (record g { seen_popped = k }) e
        (stale_front-Counters q g (value k) k c (e k l.1) l.0 l.1) l.2 h)

  front_block-ends :
      (ks : List ℕ) (q : SpscQueue) (g : Ghost)
      → ((k : ℕ) → k ≤ g.pushed → value k ≡ k % 2 ^ 64)
      → Counters q g
      → Loads g.seen_pushed g.pushed ks
      → g.popped < g.pushed
      → (q' : SpscQueue) × (spsc_front_block (map value ks ++ (value g.pushed ∷ [])) q
          ≡ some (block_at q q.consumer_cached_front, q'))
        × (looks_empty q' ≡ false)
  unfolding spsc_front_block reload_back block_at
  front_block-ends [] q g e c l h =
      let block = newest_block q g (value g.pushed) c (e g.pushed (omega arith)) h in
      elim (Bool-cases (looks_empty q)) [
        | inl bare ↦ (reload_back q (value g.pushed), rw (bare, block) refl, block)
        | inr full ↦ (q, rw full refl, full)
      ]
  front_block-ends (k ∷ ks) q g e c l h = elim (Bool-cases (looks_empty q)) [
    | inl bare ↦
        let (q', runs, full) =
          front_block-ends ks (reload_back q (value k)) (record g { seen_pushed = k }) e
            (stale_back-Counters q g (value k) k c (e k l.1) l.0 l.1) l.2 h in
        (q', rw bare runs, full)
    | inr full ↦ (q, rw full refl, full)
  ]

  front_block-waits :
      (ks : List ℕ) (q : SpscQueue) (g : Ghost)
      → ((k : ℕ) → k ≤ g.pushed → value k ≡ k % 2 ^ 64)
      → Counters q g
      → Loads g.seen_pushed g.pushed ks
      → g.pushed ≡ g.popped
      → spsc_front_block (map value ks) q ≡ none
  unfolding spsc_front_block reload_back
  front_block-waits [] q g e c l h = rw (no_block q g c h) refl
  front_block-waits (k ∷ ks) q g e c l h = rw (no_block q g c h) (
      front_block-waits ks (reload_back q (value k)) (record g { seen_pushed = k }) e
        (stale_back-Counters q g (value k) k c (e k l.1) l.0 l.1) l.2 h)

module _ {ℓ} {A : Type ℓ} (q : SpscQueue) (slot : ℕ → A) (w : Weak A) (c : Counters q no_blocks)
    (r : WeakReach (weak_start q slot) w) where
  -- In every state that the memory model allows from a new queue on: while fewer blocks than the
  -- capacity are pushed and not yet popped, `spsc_new_block` returns the block for the next push,
  -- whatever old values of `front` its loads return, at the latest when one of them returns the
  -- newest value. While that many are, it waits whatever its loads return.
  pub weak_new_block_lem :
      (ks : List ℕ)
      → Loads w.producer.current.front w.front_stores.newest ks
      → (length w.system.sent < length w.system.received + 2 ^ w.system.queue.log2_capacity
          → (q' : SpscQueue) × (spsc_new_block
                (map w.front_stores.value ks ++ (w.front_stores.value w.front_stores.newest ∷ []))
                w.system.queue
              ≡ some (block_at w.system.queue w.system.queue.producer_cached_back, q'))
            × (looks_full q' ≡ false))
        × (length w.system.sent ≡ length w.system.received + 2 ^ w.system.queue.log2_capacity
            → spsc_new_block (map w.front_stores.value ks) w.system.queue ≡ none)
  weak_new_block_lem ks l =
      let (g, v) = WeakReach-Sound r no_blocks (weak_start-Sound q slot c) in
      let e : w.front_stores.newest ≡ g.popped = v.consumer.newest in
      let low =
        Loads-lower g.seen_popped w.producer.current.front w.front_stores.newest ks v.seen_front
          l in
      let l' = subst (λ n. Loads g.seen_popped n ks) e low in
      (
        λ h. rw e (
            new_block-ends w.front_stores.value ks w.system.queue g v.consumer.values v.inv.counters
              l' (omega (arith, fill_level w.system g v.inv))),
        λ h.
            new_block-waits w.front_stores.value ks w.system.queue g v.consumer.values
              v.inv.counters l' (omega (arith, fill_level w.system g v.inv)),
      )

  -- In every state that the memory model allows from a new queue on: while some block is pushed
  -- and not yet popped, `spsc_front_block` returns the oldest one's address, whatever old values
  -- of `back` its loads return, at the latest when one of them returns the newest value. While
  -- none is, it waits whatever its loads return.
  pub weak_front_block_lem :
      (ks : List ℕ)
      → Loads w.consumer.current.back w.back_stores.newest ks
      → (length w.system.received < length w.system.sent
          → (q' : SpscQueue) × (spsc_front_block
                (map w.back_stores.value ks ++ (w.back_stores.value w.back_stores.newest ∷ []))
                w.system.queue
              ≡ some (block_at w.system.queue w.system.queue.consumer_cached_front, q'))
            × (looks_empty q' ≡ false))
        × (length w.system.sent ≡ length w.system.received
            → spsc_front_block (map w.back_stores.value ks) w.system.queue ≡ none)
  weak_front_block_lem ks l =
      let (g, v) = WeakReach-Sound r no_blocks (weak_start-Sound q slot c) in
      let e : w.back_stores.newest ≡ g.pushed = v.producer.newest in
      let low =
        Loads-lower g.seen_pushed w.consumer.current.back w.back_stores.newest ks v.seen_back l in
      let l' = subst (λ n. Loads g.seen_pushed n ks) e low in
      (
        λ h. rw e (
            front_block-ends w.back_stores.value ks w.system.queue g v.producer.values
              v.inv.counters l' (omega (arith, fill_level w.system g v.inv))),
        λ h.
            front_block-waits w.back_stores.value ks w.system.queue g v.producer.values
              v.inv.counters l' (omega (arith, fill_level w.system g v.inv)),
      )
