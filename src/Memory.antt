-- ===== src/Memory.antt =====
-- A block of bytes, by offset, on a little-endian machine.
use micro_ros_demos.Prelude.{
  ℕ, zero, suc, ◌+◌, ◌*◌, ◌/◌, ◌%◌, ◌≤◌, ◌<◌, ◌≡◌, refl, ap, List, [], ◌∷◌, arith, ◌==◌,
  if◌then◌else◌, length,
}

abbrev pub Mem : Type 0
Mem = ℕ → ℕ

abbrev pub store : Mem → ℕ → ℕ → Mem
store m a v x = if x == a then v else m x

-- `*(uint16_t *)p` and `*(uint32_t *)p`
abbrev pub load16 : Mem → ℕ → ℕ
load16 m a = m a + 256 * m (a + 1)

abbrev pub store16 : Mem → ℕ → ℕ → Mem
store16 m a v = store (store m a (v % 256)) (a + 1) (v / 256 % 256)

abbrev pub load32 : Mem → ℕ → ℕ
load32 m a = load16 m a + 65536 * load16 m (a + 2)

abbrev pub store32 : Mem → ℕ → ℕ → Mem
store32 m a v = store16 (store16 m a v) (a + 2) (v / 65536)

-- `memcpy` to a block, and from it.
abbrev pub blit : Mem → ℕ → List ℕ → Mem
blit m a [] = m
blit m a (b ∷ bs) = store (blit m (a + 1) bs) a b

abbrev pub load_bytes : Mem → ℕ → ℕ → List ℕ
load_bytes m a zero = []
load_bytes m a (suc n) = m a ∷ load_bytes m (a + 1) n

pub blit-below : (m : Mem) (a : ℕ) (bs : List ℕ) (x : ℕ) → x < a → blit m a bs x ≡ m x
blit-below m a [] x h = refl
blit-below m a (b ∷ bs) x h = ground (arith, blit-below m (a + 1) bs x (omega arith))

pub blit-above : (m : Mem) (a : ℕ) (bs : List ℕ) (x : ℕ) → a + length bs ≤ x → blit m a bs x ≡ m x
blit-above m a [] x h = refl
blit-above m a (b ∷ bs) x h = ground (arith, blit-above m (a + 1) bs x (omega arith))

-- Two memories that agree on a range give the same bytes there.
pub load_bytes-agree :
    (m k : Mem) (a n : ℕ)
    → ((x : ℕ) → a ≤ x → x < a + n → m x ≡ k x)
    → load_bytes m a n ≡ load_bytes k a n
load_bytes-agree m k a zero h = refl
load_bytes-agree m k a (suc n) h = ground (
  arith,
  h a (omega arith) (omega arith),
  load_bytes-agree m k (a + 1) n (λ x p q. h x (omega arith) (omega arith)),
)

pub load_bytes-blit : (m : Mem) (a : ℕ) (bs : List ℕ) → load_bytes (blit m a bs) a (length bs) ≡ bs
load_bytes-blit m a [] = refl
load_bytes-blit m a (b ∷ bs) = ground (
  arith,
  load_bytes-agree (blit m a (b ∷ bs)) (blit m (a + 1) bs) (a + 1) (length bs)
      (λ x p q. ground arith),
  load_bytes-blit m (a + 1) bs,
)

-- Every cell holds a byte.
abbrev pub IsBytes : Mem → Type 0
IsBytes m = (a : ℕ) → m a < 256

pub store16-IsBytes : (m : Mem) (a v : ℕ) → IsBytes m → IsBytes (store16 m a v)
store16-IsBytes m a v h x = ground (arith, h x)

pub length-load_bytes : (m : Mem) (a n : ℕ) → length (load_bytes m a n) ≡ n
length-load_bytes m a zero = refl
length-load_bytes m a (suc n) = ap suc (length-load_bytes m (a + 1) n)

pub load16-store16 : (m : Mem) (a v : ℕ) → load16 (store16 m a v) a ≡ v % 65536
load16-store16 m a v = ground arith
