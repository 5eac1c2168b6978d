-- ===== src/Fibonacci/Numbers.antt =====
-- The Fibonacci numbers and how many of them an int32_t holds.
use mathlib.Core.Path.{ap₂}
use micro_ros_demos.Prelude.{ℕ, zero, suc, ◌+◌, ◌-◌, ◌≤◌, ◌<◌, ◌^◌, ◌≡◌, refl, subst, ◌∙◌, arith}

-- The Fibonacci numbers, two at a time.
abbrev fib_pair : ℕ → ℕ × ℕ
fib_pair zero = (0, 1)
fib_pair (suc n) = let (a, b) = fib_pair n in (b, a + b)

unfoldable pub fib : ℕ → ℕ
fib n = (fib_pair n).0

pub fib-step : (n : ℕ) → fib (suc (suc n)) ≡ fib (suc n) + fib n
unfolding fib
fib-step n = omega arith

fib-le-suc : (n : ℕ) → fib n ≤ fib (suc n)
unfolding fib
fib-le-suc zero = omega arith
fib-le-suc (suc n) = omega arith

fib_mono : (k d : ℕ) → fib k ≤ fib (d + k)
fib_mono k zero = subst (λ t. fib k ≤ fib t) (let e : k ≡ 0 + k = omega arith in e) (omega arith)
fib_mono k (suc d) =
    subst (λ t. fib k ≤ fib t) (let e : suc (d + k) ≡ suc d + k = omega arith in e)
      (omega (arith, fib_mono k d, fib-le-suc (d + k)))

fib_46 : fib 46 ≡ 1836311903
unfolding fib
fib_46 = refl

pub fib_47 : fib 47 ≡ 2971215073
unfolding fib
fib_47 = refl

pub fib-small : (k : ℕ) → k < 47 → fib k < 2 ^ 31
fib-small k h =
    let e : 46 - k + k ≡ 46 = omega arith in
    omega (arith, fib_46, subst (λ t. fib k ≤ fib t) e (fib_mono k (46 - k)))

pub fib_at : (i : ℕ) → 2 ≤ i → fib i ≡ fib (i - 1) + fib (i - 2)
fib_at zero h = absurd (omega arith)
fib_at (suc zero) h = absurd (omega arith)
fib_at (suc (suc i)) h =
    fib-step i
    ∙ ap₂ (λ a b. fib a + fib b) (let e : suc i ≡ suc (suc i) - 1 = omega arith in e)
        (let e : i ≡ suc (suc i) - 2 = omega arith in e)
