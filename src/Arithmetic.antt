-- ===== src/Arithmetic.antt =====
-- Powers of two and residues, which masks and wrapping counters rest on.
use Prim.Native.Nat.{◌∣◌}
use native.Mathlib.Nat.{
  pow-suc, dvd-mul_right_of_dvd, dvd_refl, mod-mod_of_dvd, div-add-mod, pow-le-pow_right,
}
use micro_ros_demos.Prelude.{
  ℕ, zero, suc, ◌+◌, ◌-◌, ◌*◌, ◌/◌, ◌%◌, ◌^◌, ◌≤◌, ◌<◌, ◌≡◌, sym, subst, ◌≢◌, arith,
}

pub two-pow-pos : (c : ℕ) → 0 < 2 ^ c
two-pow-pos zero = omega arith
two-pow-pos (suc c) = rw pow-suc (omega (arith, two-pow-pos c))

two-pow-dvd-add : (c d : ℕ) → 2 ^ c ∣ 2 ^ (d + c)
two-pow-dvd-add c zero = subst (λ k. 2 ^ c ∣ 2 ^ k) (omega arith) (dvd_refl (2 ^ c))
two-pow-dvd-add c (suc d) =
    subst (λ k. 2 ^ c ∣ 2 ^ k) (omega arith)
      (subst (λ k. 2 ^ c ∣ k) (sym (pow-suc 2 (d + c)))
        (dvd-mul_right_of_dvd (2 ^ c) (two-pow-dvd-add c d) 2))

pub two-pow-dvd : (c n : ℕ) → c ≤ n → 2 ^ c ∣ 2 ^ n
two-pow-dvd c n h = subst (λ k. 2 ^ c ∣ 2 ^ k) (omega arith) (two-pow-dvd-add c (n - c))

pub two-pow-le : (c n : ℕ) → c ≤ n → 2 ^ c ≤ 2 ^ n
two-pow-le c n h = pow-le-pow_right (omega arith) h

-- A counter that wraps at 2^64 still names its block.
pub mod-wrapped : (x c : ℕ) → c ≤ 64 → x % 2 ^ 64 % 2 ^ c ≡ x % 2 ^ c
mod-wrapped x c h = mod-mod_of_dvd (2 ^ c) x (two-pow-dvd c 64 h)

mul-step : (size p q : ℕ) → p < q → size * p + size ≤ size * q
mul-step size p q h = grind arith

-- Two counters less than the capacity apart name different blocks.
pub mod-ne_of_near : (x y size : ℕ) → x < y → y < x + size → x % size ≢ y % size
mod-ne_of_near x y size h k e = grind (
  arith,
  div-add-mod x size,
  div-add-mod y size,
  mul-step size (x / size) (y / size),
  mul-step size (y / size) (x / size),
)
