-- ===== src/Spsc/Fifo.antt =====
-- What the two sides may rely on in every interleaving: order, exclusion, and no lost wake-up.
use micro_ros_demos.Prelude.{
  ℕ, zero, suc, ◌+◌, ◌-◌, ◌%◌, ◌^◌, ◌≤◌, ◌<◌, ◌≡◌, refl, sym, ap, ◌∙◌, ◌≢◌, true, false, List, [],
  ◌∷◌, ◌++◌, arith, length, length-append,
}
use micro_ros_demos.Arithmetic.{mod-ne_of_near}
use micro_ros_demos.Spsc.{SpscQueue, reload_front, spsc_push, spsc_empty, reload_back}
use micro_ros_demos.Spsc.Shared.{
  System, Step, Reach, here, next, wait_room, claim, fill, publish, poll, wait_block, take, release,
  write_index, read_index,
}
use micro_ros_demos.Spsc.Invariant.{
  Ghost, Counters, Inv, window, Step-Inv, advance, write_index-ghost, read_index-ghost,
}
use micro_ros_demos.Spsc.Init.{no_blocks}

-- Nothing is claimed, pushed or popped yet.
abbrev pub start {ℓ} : {A : Type ℓ} → SpscQueue → (ℕ → A) → System A
start q slot = record {
  queue = q;
  slot = slot;
  writing = false;
  reading = false;
  sent = [];
  received = [];
}

module _ {ℓ} {A : Type ℓ} where
  pub length-window : (slot : ℕ → A) (size f n : ℕ) → length (window slot size f n) ≡ n
  length-window slot size f zero = refl
  length-window slot size f (suc n) = ap suc (length-window slot size (f + 1) n)

  pub start-Inv :
      (q : SpscQueue) (slot : ℕ → A) → Counters q no_blocks → Inv (start q slot) no_blocks
  start-Inv q slot k = record { counters = k; write_ok = λ e. cc; read_ok = λ e. cc; fifo = refl }

  pub Reach-Inv : {s t : System A} → Reach s t → (g : Ghost) → Inv s g → (g' : Ghost) × Inv t g'
  Reach-Inv here g v = (g, v)
  Reach-Inv (next r st) g v = let (g', v') = Reach-Inv r g v in (advance st g', Step-Inv st g' v')

  pub window-cons :
      (slot : ℕ → A) (size f n : ℕ)
      → 0 < n
      → window slot size f n ≡ slot (f % size) ∷ window slot size (f + 1) (n - 1)
  window-cons slot size f zero h = absurd (omega arith)
  window-cons slot size f (suc n) h = ap (λ k. window slot size f (suc k)) (omega arith)

  -- In every interleaving the consumer gets the blocks that the producer pushed, in that order and
  -- with what they held, and at most one capacity of them is still to be popped.
  pub Reach-fifo :
      (q : SpscQueue) (slot : ℕ → A) (t : System A)
      → Counters q no_blocks
      → Reach (start q slot) t
      → (rest : List A) × (t.sent ≡ t.received ++ rest) × (length rest ≤ 2 ^ t.queue.log2_capacity)
  Reach-fifo q slot t k r =
      let (g, v) = Reach-Inv r no_blocks (start-Inv q slot k) in
      (
        window t.slot (2 ^ t.queue.log2_capacity) g.popped (g.pushed - g.popped),
        v.fifo,
        omega (
          arith,
          v.counters,
          length-window t.slot (2 ^ t.queue.log2_capacity) g.popped (g.pushed - g.popped),
        ),
      )

  pub fill_level :
      (t : System A) (g : Ghost) → Inv t g → length t.sent + g.popped ≡ length t.received + g.pushed
  fill_level t g v = omega (
    arith,
    ap length v.fifo,
    length-append t.received
        (window t.slot (2 ^ t.queue.log2_capacity) g.popped (g.pushed - g.popped)),
    length-window t.slot (2 ^ t.queue.log2_capacity) g.popped (g.pushed - g.popped),
    v.counters,
  )

  Inv-exclusive :
      (t : System A) (g : Ghost)
      → Inv t g
      → t.writing ≡ true
      → t.reading ≡ true
      → write_index t.queue ≢ read_index t.queue
  Inv-exclusive t g v w c e =
      mod-ne_of_near g.popped g.pushed (2 ^ t.queue.log2_capacity)
        (omega (arith, v.read_ok c, v.counters)) (omega (arith, v.write_ok w, v.counters))
        (sym (read_index-ghost t.queue g v.counters)
          ∙ sym e
          ∙ write_index-ghost t.queue g v.counters)

  -- The block that the producer may write is never the one that the consumer may read.
  pub Reach-exclusive :
      (q : SpscQueue) (slot : ℕ → A) (t : System A)
      → Counters q no_blocks
      → Reach (start q slot) t
      → t.writing ≡ true
      → t.reading ≡ true
      → write_index t.queue ≢ read_index t.queue
  Reach-exclusive q slot t k r =
      let (g, v) = Reach-Inv r no_blocks (start-Inv q slot k) in Inv-exclusive t g v

  -- The block that the consumer holds is the oldest one not yet popped.
  pub Reach-oldest :
      (q : SpscQueue) (slot : ℕ → A) (t : System A)
      → Counters q no_blocks
      → Reach (start q slot) t
      → t.reading ≡ true
      → (rest : List A) × (t.sent ≡ t.received ++ t.slot (read_index t.queue) ∷ rest)
  Reach-oldest q slot t k r c =
      let (g, v) = Reach-Inv r no_blocks (start-Inv q slot k) in
      let size : ℕ = 2 ^ t.queue.log2_capacity in
      let n : ℕ = g.pushed - g.popped in
      (
        window t.slot size (g.popped + 1) (n - 1),
        rw (read_index-ghost t.queue g v.counters) (
            v.fifo
            ∙ ap (◌++◌ t.received)
                (window-cons t.slot size g.popped n (omega (arith, v.read_ok c, v.counters)))),
      )

  -- While the consumer holds a block, no access of either side changes which block it is or what
  -- the block contains.
  pub Step-keeps_block :
      {s t : System A} (st : Step s t) (g : Ghost)
      → Inv s g
      → s.reading ≡ true
      → t.reading ≡ true
      → (read_index t.queue ≡ read_index s.queue)
        × (t.slot (read_index s.queue) ≡ s.slot (read_index s.queue))
  unfolding spsc_push spsc_empty reload_front reload_back
  Step-keeps_block (wait_room w e) g v c d = (refl, refl)
  Step-keeps_block (claim w e) g v c d = (refl, refl)
  Step-keeps_block {s = s} (fill x w) g v c d = (refl, ground (arith, Inv-exclusive s g v w c))
  Step-keeps_block (publish w) g v c d = (refl, refl)
  Step-keeps_block poll g v c d = (refl, refl)
  Step-keeps_block (wait_block w e) g v c d = (refl, refl)
  Step-keeps_block (take w e) g v c d = (refl, refl)
  Step-keeps_block (release w) g v c d = cc
