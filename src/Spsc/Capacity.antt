-- ===== src/Spsc/Capacity.antt =====
-- How many blocks a queue from `spsc_init` holds at a time.
use native.Mathlib.Nat.{pow-suc, div-eq_of_lt}
use native.Mathlib.Decide.{dec_lt}
use micro_ros_demos.Prelude.{
  ℕ, zero, suc, ◌+◌, ◌-◌, ◌*◌, ◌/◌, ◌%◌, ◌^◌, ◌≤◌, ◌<◌, ◌≡◌, refl, ap, subst, ◌∙◌, true, arith,
  length, length-append,
}
use micro_ros_demos.Spsc.{
  SpscQueue, spsc_init, spsc_push, spsc_pop, spsc_empty, reload_front, reload_back,
}
use micro_ros_demos.Spsc.Shared.{
  System, Step, Reach, here, next, wait_room, claim, fill, publish, poll, wait_block, take, release,
}
use micro_ros_demos.Spsc.Init.{Geometry, spsc_init_lem}
use micro_ros_demos.Spsc.Fifo.{start, Reach-fifo}

two-pow-odd : (c k : ℕ) → 2 ^ c * (2 * k + 1) % 2 ≡ 1 → 2 ^ c ≡ 1
two-pow-odd zero k h = refl
two-pow-odd (suc c) k h =
    absurd (omega (arith, subst (λ t. t * (2 * k + 1) % 2 ≡ 1) (pow-suc 2 c) h))

odd-capacity :
    (q : SpscQueue) (begin end l : ℕ)
    → Geometry q begin end l
    → (end - begin) / 2 ^ l % 2 ≡ 1
    → 2 ^ q.log2_capacity ≡ 1
odd-capacity q begin end l geo h = two-pow-odd q.log2_capacity geo.odd_part (rw geo.blocks at h)

odd-room : (begin end l : ℕ) → (end - begin) / 2 ^ l % 2 ≡ 1 → 2 ^ l ≤ end - begin
odd-room begin end l h = elim (dec_lt (end - begin) (2 ^ l)) [
  | yes small ↦ absurd (omega (arith, div-eq_of_lt small, h))
  | no large ↦ omega (arith, large)
]

module _ {ℓ} {A : Type ℓ} where
  Step-capacity : {s t : System A} → Step s t → t.queue.log2_capacity ≡ s.queue.log2_capacity
  unfolding spsc_push spsc_empty reload_front reload_back spsc_pop
  Step-capacity (wait_room w e) = refl
  Step-capacity (claim w e) = refl
  Step-capacity (fill x w) = refl
  Step-capacity (publish w) = refl
  Step-capacity poll = refl
  Step-capacity (wait_block w e) = refl
  Step-capacity (take w e) = refl
  Step-capacity (release w) = refl

  Reach-capacity : {s t : System A} → Reach s t → t.queue.log2_capacity ≡ s.queue.log2_capacity
  Reach-capacity here = refl
  Reach-capacity (next r st) = Step-capacity st ∙ Reach-capacity r

  -- Let the block size be 2^l with l below 64, and the memory, which does not wrap, hold an odd
  -- number of whole blocks. Then `spsc_init` succeeds, and in every interleaving from the queue that
  -- it makes at most one block is pushed and not yet popped, however many the memory holds.
  pub spsc_init-odd :
      (q : SpscQueue) (begin end l : ℕ) (slot : ℕ → A) (t : System A)
      → begin ≤ end
      → end < 2 ^ 64
      → l < 64
      → (end - begin) / 2 ^ l % 2 ≡ 1
      → Reach (start (spsc_init q begin end l).1 slot) t
      → ((spsc_init q begin end l).0 ≡ true) × (length t.sent ≤ length t.received + 1)
  spsc_init-odd q begin end l slot t ordered bounded defined odd r =
      let (ok, initial) =
        (spsc_init_lem q begin end l ordered bounded defined).0 (odd-room begin end l odd) in
      let (rest, fifo, few) = Reach-fifo (spsc_init q begin end l).1 slot t initial.counters r in
      let one : 2 ^ t.queue.log2_capacity ≡ 1 =
        ap (λ c. 2 ^ c) (Reach-capacity r)
        ∙ odd-capacity (spsc_init q begin end l).1 begin end l initial.geometry odd in
      (ok, omega (arith, ap length fifo, length-append t.received rest, few, one))
