-- ===== src/Callbacks/Fragments/Delivery.antt =====
-- When the subscriber prints OK.
use micro_ros_demos.Prelude.{
  ℕ, zero, suc, ◌≤◌, ◌<◌, ◌≡◌, ◌∙◌, refl, ap, Bool, true, ◌&&◌, List, [], ◌∷◌, ◌++◌, some, ◌==◌,
  leb, overwrite, replicate, length, arith, length-overwrite,
}
use micro_ros_demos.Callbacks.Fragments.{
  Text, fill, strncmp, subscription_callback, array_len, text_len,
}

-- every one of the first `n` bytes is 'z'
abbrev pub all_z : ℕ → List ℕ → Bool
all_z zero bs = true
all_z (suc n) [] = true
all_z (suc n) (x ∷ bs) = x == b'z' && all_z n bs

strncmp-all_z :
    (n len : ℕ) (bs : List ℕ)
    → n ≤ len
    → n ≤ length bs
    → strncmp n (replicate len b'z') bs ≡ some (all_z n bs)
unfolding strncmp
strncmp-all_z zero len bs h k = refl
strncmp-all_z (suc n) zero bs h k = absurd (omega arith)
strncmp-all_z (suc n) (suc len) [] h k = absurd (omega arith)
strncmp-all_z (suc n) (suc len) (x ∷ bs) h k =
    ground (arith, strncmp-all_z n len bs (omega arith) (omega arith))

-- A text that is not longer than both arrays is compared without a read beyond them, and the verdict
-- is OK exactly if all its bytes are 'z'.
subscription_callback_lem :
    (len : ℕ) (msg : Text)
    → msg.size ≤ len
    → msg.size ≤ length msg.bytes
    → subscription_callback len msg ≡ some (msg.size, all_z msg.size msg.bytes)
unfolding subscription_callback
subscription_callback_lem len msg h k =
    rw (subscription_callback, strncmp-all_z msg.size len msg.bytes h k)

-- The publisher's bytes: `len` times 'z' and a NUL.
all_z-fill :
    (len k : ℕ) (found : List ℕ)
    → len < length found
    → k ≤ suc len
    → all_z k (overwrite (replicate len b'z' ++ (0 ∷ [])) found) ≡ leb k len
all_z-fill len zero found h l = ground arith
all_z-fill len (suc k) [] h l = absurd (omega arith)
all_z-fill zero (suc k) (y ∷ found) h l = ground arith
all_z-fill (suc len) (suc k) (y ∷ found) h l =
    ground (arith, all_z-fill len k found (omega arith) (omega arith))

fragments :
    (len room k : ℕ) (found : List ℕ)
    → len < room
    → length found ≡ room
    → k ≤ suc len
    → subscription_callback room (record (fill len found) { size = k }) ≡ some (k, leb k len)
unfolding fill
fragments len room k found h e l =
    subscription_callback_lem room (record { bytes = (fill len found).bytes; size = k })
      (omega arith) (omega (arith, length-overwrite (replicate len b'z' ++ (0 ∷ [])) found))
    ∙ ap (λ b. some (k, b)) (all_z-fill len k found (omega arith) l)

-- Every text that is not longer than the arrays gets the verdict OK exactly if its bytes are all
-- 'z', and nothing beyond the arrays is read. The bytes that the publisher sends get OK exactly if
-- the size that arrives does not count the NUL, although the size that the publisher sets does.
pub fragments_lem :
    (found : List ℕ)
    → length found ≡ array_len
    → ((msg : Text)
        → msg.size ≤ array_len
        → msg.size ≤ length msg.bytes
        → subscription_callback array_len msg ≡ some (msg.size, all_z msg.size msg.bytes))
      × ((k : ℕ)
          → k ≤ (fill text_len found).size
          → subscription_callback array_len (record (fill text_len found) { size = k })
            ≡ some (k, leb k text_len))
unfolding fill
fragments_lem found e = (
  λ msg h k. subscription_callback_lem array_len msg h k,
  λ k h. fragments text_len array_len k found (omega arith) e h,
)
