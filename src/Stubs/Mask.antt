-- ===== src/Stubs/Mask.antt =====
-- What the mask with `~(align - 1)` does to an address if the alignment is a power of two.
use native.Mathlib.Nat.{pow-suc, div-div-eq-div-mul}
use micro_ros_demos.Prelude.{
  ℕ, zero, suc, ◌+◌, ◌-◌, ◌*◌, ◌/◌, ◌%◌, ◌^◌, ◌≤◌, ◌<◌, ◌≡◌, ◌∙◌, refl, sym, ap, arith, ltb, true,
  false,
}
use micro_ros_demos.Arithmetic.{two-pow-pos}
use micro_ros_demos.Stubs.{and_bits, aligned_up}

-- `k` low bits of a number of `bits` bits are cleared.
and_bits-mask :
    (bits k x : ℕ)
    → k ≤ bits
    → x < 2 ^ bits
    → and_bits bits x (2 ^ bits - 2 ^ k) ≡ x / 2 ^ k * 2 ^ k
unfolding and_bits
and_bits-mask zero zero x h l = omega (arith, l)
and_bits-mask zero (suc k) x h l = absurd (omega arith)
and_bits-mask (suc bits) zero x h l =
    let rest = and_bits-mask bits zero (x / 2) (omega arith) (omega (arith, pow-suc 2 bits, l)) in
    let odd : (2 ^ suc bits - 2 ^ 0) % 2 ≡ 1 = omega (arith, pow-suc 2 bits, two-pow-pos bits) in
    let half : (2 ^ suc bits - 2 ^ 0) / 2 ≡ 2 ^ bits - 2 ^ 0 =
      omega (arith, pow-suc 2 bits, two-pow-pos bits) in
    rw (odd, half, rest) (omega arith)
and_bits-mask (suc bits) (suc k) x h l =
    let rest = and_bits-mask bits k (x / 2) (omega arith) (omega (arith, pow-suc 2 bits, l)) in
    let even : (2 ^ suc bits - 2 ^ suc k) % 2 ≡ 0 = omega (arith, pow-suc 2 bits, pow-suc 2 k) in
    let half : (2 ^ suc bits - 2 ^ suc k) / 2 ≡ 2 ^ bits - 2 ^ k =
      omega (arith, pow-suc 2 bits, pow-suc 2 k) in
    let twice : x / 2 / 2 ^ k ≡ x / (2 ^ k * 2) =
      div-div-eq-div-mul x 2 (2 ^ k) ∙ ap (◌/◌ x) (omega arith) in
    rw (even, half, rest, pow-suc 2 k, twice) (grind arith)

-- What a C alignment is: 0 and 1 ask for nothing, any other one is a power of two.
abbrev pub IsAlignment : ℕ → Type 0
IsAlignment a = 1 < a → (k : ℕ) × (k < 64) × (a ≡ 2 ^ k)

pub aligned_up-eq :
    (x a : ℕ) → 1 < a → IsAlignment a → aligned_up x a ≡ (x + a - 1) % 2 ^ 64 / a * a
unfolding aligned_up
aligned_up-eq x a h power =
    let (k, small, e) = power h in
    let mask : 2 ^ 64 - 1 - (a - 1) ≡ 2 ^ 64 - 2 ^ k = omega (arith, e, two-pow-pos k) in
    let tested : ltb 1 a ≡ true = ground arith in
    rw (tested, mask)
      (and_bits-mask 64 k ((x + a - 1) % 2 ^ 64) (omega arith) (omega arith)
        ∙ ap (λ b. (x + a - 1) % 2 ^ 64 / b * b) (sym e))

pub aligned_up-none : (x a : ℕ) → ltb 1 a ≡ false → aligned_up x a ≡ x
unfolding aligned_up
aligned_up-none x a h = rw h refl
