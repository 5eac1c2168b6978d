-- ===== src/Prelude/Int.antt =====
-- Signed integers, and how a machine integer of some width holds them.
use micro_ros_demos.Prelude.Tests.{if◌then◌else◌, ltb, leb}
use Prim.Native.Nat.{ℕ, suc, ◌+◌, ◌-◌, ◌*◌, ◌%◌, ◌<◌}
use mathlib.Core.Path.{◌≡◌, subst}
use mathlib.Core.Logic.{◌↔◌}
use native.Mathlib.Nat.{mod-eq_of_lt, mod-lt}
use native.Mathlib.Omega.{arith}

-- `negsuc n` is -(n + 1).
pub data ℤ : Type 0 where
  pos : ℕ → ℤ
  negsuc : ℕ → ℤ

abbrev pub pos_part : ℤ → ℕ
pos_part (pos n) = n
pos_part (negsuc n) = 0

abbrev pub neg_part : ℤ → ℕ
neg_part (pos n) = 0
neg_part (negsuc n) = suc n

abbrev pub sub_ℕ : ℕ → ℕ → ℤ
sub_ℕ a b = if leb b a then pos (a - b) else negsuc (b - a - 1)

infixl 65 ◌+ℤ◌
abbrev pub ◌+ℤ◌ : ℤ → ℤ → ℤ
a +ℤ b = sub_ℕ (pos_part a + pos_part b) (neg_part a + neg_part b)

-- Half the values of a type, and the range of a signed one with `half` values that are not negative.
abbrev pub Fits : ℕ → ℤ → Type 0
Fits half (pos n) = n < half
Fits half (negsuc n) = n < half

-- The unsigned value with the same bits, in a type with `size` values.
abbrev pub bits_of : ℕ → ℤ → ℕ
bits_of size (pos n) = n % size
bits_of size (negsuc n) = size - 1 - n % size

-- The conversion to a signed type with `2 * half` values, which takes the low bits.
abbrev pub wrap : ℕ → ℤ → ℤ
wrap half x =
    let p = bits_of (2 * half) x in if ltb p half then pos p else negsuc (2 * half - 1 - p)

wrap-eq-of_Fits : (half : ℕ) (x : ℤ) → Fits half x → wrap half x ≡ x
wrap-eq-of_Fits half (pos n) f =
    let e : n % (2 * half) ≡ n = mod-eq_of_lt (omega arith) in ground arith
wrap-eq-of_Fits half (negsuc n) f =
    let e : n % (2 * half) ≡ n = mod-eq_of_lt (omega arith) in ground arith

wrap-Fits : (half : ℕ) (x : ℤ) → 0 < half → Fits half (wrap half x)
wrap-Fits half (pos n) h =
    let l : n % (2 * half) < 2 * half = mod-lt n (omega arith) in ground arith
wrap-Fits half (negsuc n) h =
    let l : n % (2 * half) < 2 * half = mod-lt n (omega arith) in ground arith

-- The conversion keeps exactly the values that the type has.
pub wrap-eq_iff : (half : ℕ) (x : ℤ) → 0 < half → (wrap half x ≡ x) ↔ Fits half x
wrap-eq_iff half x h = (λ e. subst (Fits half) e (wrap-Fits half x h), wrap-eq-of_Fits half x)
