-- ===== src/Callbacks/Fragments.antt =====
-- rclc/fragmented_publication/main.c and rclc/fragmented_subscription/main.c: a text that takes
-- several packets, and the test of what arrives.
pub mod Delivery
mod Tests
use micro_ros_demos.Prelude.{
  ℕ, zero, suc, Bool, true, false, List, [], ◌∷◌, ◌++◌, Option, some, none, ◌==◌, if◌then◌else◌,
  overwrite, replicate,
}

abbrev pub array_len : ℕ
array_len = 4096

-- how many bytes the publisher sets
abbrev pub text_len : ℕ
text_len = 3500

-- `std_msgs__msg__String`: the array at `data.data` and `data.size`.
pub record Text : Type 0 where
  pub bytes : List ℕ
  pub size : ℕ

-- What main stores before it spins, over whatever `malloc` found. `len` is 3500.
unfoldable pub fill : ℕ → List ℕ → Text
fill len found = record { bytes = overwrite (replicate len b'z' ++ (0 ∷ [])) found; size = suc len }

-- The texts that the library took, and what was printed: `none` for the message of RCSOFTCHECK, else
-- the size.
pub record Publisher : Type 0 where
  pub msg : Text
  pub wire : List Text
  pub lines : List (Option ℕ)

unfoldable pub timer_callback : Bool → Bool → Publisher → Publisher
timer_callback timer ok s =
    if timer
    then record s {
      wire = s.wire ++ (if ok then s.msg ∷ [] else []);
      lines = s.lines ++ ((if ok then [] else none ∷ []) ++ (some s.msg.size ∷ []));
    }
    else s

-- `strncmp(a, b, n) == 0`; `none` is a read beyond an array.
unfoldable pub strncmp : ℕ → List ℕ → List ℕ → Option Bool
strncmp zero a b = some true
strncmp (suc n) [] b = none
strncmp (suc n) (x ∷ a) [] = none
strncmp (suc n) (x ∷ a) (y ∷ b) =
    let rest = strncmp n a b in if x == y then if x == 0 then some true else rest else some false

-- The size and the verdict that are printed. `test_array` holds `len` bytes, 4096 in the program.
unfoldable pub subscription_callback : ℕ → Text → Option (ℕ × Bool)
subscription_callback len msg = elim (strncmp msg.size (replicate len b'z') msg.bytes) [
  | none ↦ none
  | some b ↦ some (msg.size, b)
]
