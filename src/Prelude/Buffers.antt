-- ===== src/Prelude/Buffers.antt =====
-- Arrays that are written from their start.
use Prim.Native.Nat.{ℕ, suc, ◌≤◌}
use mathlib.Core.Path.{◌≡◌, refl, ap}
use mathlib.Core.List.{List, [], ◌∷◌, ◌++◌}
use native.Mathlib.Omega.{arith}
use micro_ros_demos.Prelude.Lists.{length, take}

-- Bytes at the start of an array, whose others stay.
abbrev pub overwrite : List ℕ → List ℕ → List ℕ
overwrite [] found = found
overwrite (x ∷ xs) [] = []
overwrite (x ∷ xs) (y ∷ ys) = x ∷ overwrite xs ys

pub length-overwrite : (xs ys : List ℕ) → length (overwrite xs ys) ≡ length ys
length-overwrite [] ys = refl
length-overwrite (x ∷ xs) [] = refl
length-overwrite (x ∷ xs) (y ∷ ys) = ap suc (length-overwrite xs ys)

pub take-overwrite :
    (xs zs ys : List ℕ) → length xs ≤ length ys → take (length xs) (overwrite (xs ++ zs) ys) ≡ xs
take-overwrite [] zs ys h = refl
take-overwrite (x ∷ xs) zs [] h = absurd (omega arith)
take-overwrite (x ∷ xs) zs (y ∷ ys) h = ap (λ l. x ∷ l) (take-overwrite xs zs ys (omega arith))
