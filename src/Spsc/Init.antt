-- ===== src/Spsc/Init.antt =====
-- `spsc_init` gives an empty queue whose blocks lie within the memory that it was given.
use native.Mathlib.Nat.{
  pow-suc, mul-div_left, div-eq_of_lt, div-add-mod, mod-lt, div-le_self, div-mul-le_self,
}
use native.Mathlib.Decide.{ℕ_discrete}
use micro_ros_demos.Prelude.{
  ℕ, zero, suc, ◌+◌, ◌-◌, ◌*◌, ◌/◌, ◌%◌, ◌^◌, ◌≤◌, ◌<◌, ◌≡◌, refl, ap, subst, ◌∙◌, ◌≢◌, true, false,
  arith,
}
use micro_ros_demos.Arithmetic.{two-pow-pos}
use micro_ros_demos.Spsc.{SpscQueue, ctz_from, ctz, cleared, spsc_init, block_at}
use micro_ros_demos.Spsc.Invariant.{Ghost, Counters}

ctz_from-even : (bits x : ℕ) → x % 2 ≡ 0 → ctz_from (suc bits) x ≡ suc (ctz_from bits (x / 2))
unfolding ctz_from
ctz_from-even bits x h = ground arith

ctz_from-odd : (bits x : ℕ) → x % 2 ≢ 0 → ctz_from (suc bits) x ≡ 0
unfolding ctz_from
ctz_from-odd bits x h = ground arith

-- A nonzero word is an odd multiple of two to the number of its trailing zeros.
pub ctz_from_lem :
    (bits x : ℕ)
    → 0 < x
    → x < 2 ^ bits
    → (k : ℕ) × (x ≡ 2 ^ ctz_from bits x * (2 * k + 1)) × (ctz_from bits x < bits)
ctz_from_lem zero x p h = absurd (omega arith)
ctz_from_lem (suc bits) x p h = elim (ℕ_discrete (x % 2) 0) [
  | yes even ↦
      let (k, e, lt) =
        ctz_from_lem bits (x / 2) (omega arith)
          (omega (arith, subst (λ t. x < t) (pow-suc 2 bits) h)) in
      (
        k,
        rw (ctz_from-even bits x even, pow-suc) (omega (arith, e)),
        rw (ctz_from-even bits x even) (omega (arith, lt)),
      )
  | no odd ↦ (
    x / 2,
    rw (ctz_from-odd bits x odd) (omega arith),
    rw (ctz_from-odd bits x odd) (omega arith),
  )
]

pub ctz_lem : (x : ℕ) → 0 < x → x < 2 ^ 64 → (k : ℕ) × (x ≡ 2 ^ ctz x * (2 * k + 1)) × (ctz x < 64)
unfolding ctz
ctz_lem x = ctz_from_lem 64 x

pub ctz_511 : ctz 511 ≡ 0
unfolding ctz ctz_from
ctz_511 = refl

-- Where the blocks lie. The whole blocks between the two addresses number an odd multiple of the
-- capacity.
pub record Geometry (q : SpscQueue) (begin end log2_block_size : ℕ) : Type 0 where
  pub starts : q.begin ≡ begin
  pub block_size : q.log2_block_size ≡ log2_block_size
  pub ends : q.end ≡ begin + (end - begin) / 2 ^ log2_block_size * 2 ^ log2_block_size
  pub odd_part : ℕ
  pub blocks : (end - begin) / 2 ^ log2_block_size ≡ 2 ^ q.log2_capacity * (2 * odd_part + 1)

-- What holds right after `spsc_init`: no block is pushed or popped.
abbrev pub no_blocks : Ghost
no_blocks = record { popped = 0; pushed = 0; seen_popped = 0; seen_pushed = 0 }

pub record Initial (q : SpscQueue) (begin end log2_block_size : ℕ) : Type 0 where
  pub counters : Counters q no_blocks
  pub geometry : Geometry q begin end log2_block_size

module _ (q : SpscQueue) (begin end l : ℕ) (ordered : begin ≤ end) (bounded : end < 2 ^ 64) where
  -- the number of whole blocks
  abbrev whole : ℕ
  whole = (end - begin) / 2 ^ l

  whole-le : whole * 2 ^ l ≤ end - begin
  whole-le = div-mul-le_self (end - begin) (2 ^ l)

  counted : (end + 2 ^ 64 - begin) % 2 ^ 64 ≡ end - begin
  counted = omega arith

  recounted : (begin + whole * 2 ^ l + 2 ^ 64 - begin) % 2 ^ 64 / 2 ^ l ≡ whole
  recounted = ap (λ k. k / 2 ^ l) (omega (arith, whole-le)) ∙ mul-div_left whole (two-pow-pos l)

  spsc_init-fits :
      0 < whole * 2 ^ l
      → spsc_init q begin end l ≡ (true, cleared begin (begin + whole * 2 ^ l) l (ctz whole))
  unfolding spsc_init
  spsc_init-fits p = rw (counted, recounted) (ground arith)

  spsc_init-refuses : end - begin < 2 ^ l → spsc_init q begin end l ≡ (false, q)
  unfolding spsc_init
  spsc_init-refuses p = rw (counted, div-eq_of_lt p) (ground arith)

  whole-pos : 2 ^ l ≤ end - begin → 0 < whole
  whole-pos p =
      grind (arith, div-add-mod (end - begin) (2 ^ l), mod-lt (end - begin) (two-pow-pos l))

  cleared-Initial :
      0 < whole → Initial (cleared begin (begin + whole * 2 ^ l) l (ctz whole)) begin end l
  cleared-Initial p =
      let (k, e, lt) =
        ctz_lem whole p (omega (arith, whole-le, div-le_self (end - begin) (2 ^ l))) in
      record {
        counters = omega (arith, lt);
        geometry = record {
          starts = refl;
          block_size = refl;
          ends = refl;
          odd_part = k;
          blocks = e;
        };
      }

  -- `spsc_init` on an ordered pair of addresses, with the logarithm of a block size below 64, where
  -- the shift of 1ull is defined, succeeds exactly if a whole block fits between them. Then the queue
  -- is empty and laid out as `Geometry` says; else it is left as it was.
  pub spsc_init_lem :
      l < 64
      → (2 ^ l ≤ end - begin
          → ((spsc_init q begin end l).0 ≡ true) × Initial (spsc_init q begin end l).1 begin end l)
        × (end - begin < 2 ^ l → spsc_init q begin end l ≡ (false, q))
  spsc_init_lem defined = (fits, spsc_init-refuses)
    where
      fits :
          2 ^ l ≤ end - begin
          → ((spsc_init q begin end l).0 ≡ true) × Initial (spsc_init q begin end l).1 begin end l
      fits p =
          rw (spsc_init-fits (grind (arith, whole-pos p, two-pow-pos l)))
            (refl, cleared-Initial (whole-pos p))

module _ (q : SpscQueue) (begin end l : ℕ) (geo : Geometry q begin end l) where
  index-step : (i n d : ℕ) → i < n → i * d + d ≤ n * d
  index-step i n d h = grind arith

  capacity-le : 2 ^ q.log2_capacity ≤ (end - begin) / 2 ^ l
  capacity-le = rw geo.blocks (grind arith)

  -- Whatever counter it is computed from, a block's address lies between the two addresses that
  -- `spsc_init` was given, and so does the whole block.
  pub block_at_bounds :
      begin ≤ end
      → (counter : ℕ) → (begin ≤ block_at q counter) × (block_at q counter + 2 ^ l ≤ end)
  unfolding block_at
  block_at_bounds h counter =
      rw (geo.starts, geo.block_size)
        (
          omega arith,
          omega (
            arith,
            index-step (counter % 2 ^ q.log2_capacity) ((end - begin) / 2 ^ l) (2 ^ l)
                (omega (arith, mod-lt counter (two-pow-pos q.log2_capacity), capacity-le)),
            div-mul-le_self (end - begin) (2 ^ l),
          ),
        )
