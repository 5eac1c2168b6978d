-- ===== src/Net/Checksum.antt =====
-- The IP header checksum against its definition by ones' complement addition.
use micro_ros_demos.Prelude.{
  ℕ, zero, suc, ◌+◌, ◌-◌, ◌*◌, ◌/◌, ◌%◌, ◌^◌, ◌≤◌, ◌<◌, ◌≡◌, refl, subst, ◌∙◌, ◌≢◌, arith,
  if◌then◌else◌, ltb,
}
use micro_ros_demos.Memory.{Mem, load16, store16, IsBytes, store16-IsBytes, load16-store16}
use micro_ros_demos.Net.{add_words, fold_carries, fold_fuel, set_ip_chksum}

-- 16-bit ones' complement addition: a carry out of the top goes round to the bottom.
abbrev ones_add : ℕ → ℕ → ℕ
ones_add a b = if ltb (a + b) 65536 then a + b else a + b - 65535

-- The ones' complement sum of the `n` 16-bit words from `p` on.
abbrev pub ones_sum : Mem → ℕ → ℕ → ℕ
ones_sum m p zero = 0
ones_sum m p (suc n) = ones_add (load16 m p) (ones_sum m (p + 2) n)

-- Their plain sum.
abbrev word_sum : Mem → ℕ → ℕ → ℕ
word_sum m p zero = 0
word_sum m p (suc n) = load16 m p + word_sum m (p + 2) n

word_sum-le : (m : Mem) (p n : ℕ) → IsBytes m → word_sum m p n ≤ 65535 * n
word_sum-le m p zero h = omega arith
word_sum-le m p (suc n) h = omega (arith, h p, h (p + 1), word_sum-le m (p + 2) n h)

-- The loop's sum does not wrap on as many words as an IP header can have.
add_words-eq :
    (m : Mem) (p n sum : ℕ)
    → IsBytes m
    → sum + 65535 * n < 2 ^ 32
    → add_words m p n sum ≡ sum + word_sum m p n
unfolding add_words
add_words-eq m p zero sum h b = omega arith
add_words-eq m p (suc n) sum h b =
    let small : sum + load16 m p < 2 ^ 32 = omega (arith, h p, h (p + 1)) in
    add_words-eq m (p + 2) n ((sum + load16 m p) % 2 ^ 32) h (omega (arith, h p, h (p + 1)))
    ∙ omega (arith, small)

record Folds (s r : ℕ) : Type 0 where
  small : r < 65536
  same : r % 65535 ≡ s % 65535
  nonzero : 0 < s → 0 < r
  stays_zero : s ≡ 0 → r ≡ 0

ones_sum-Folds : (m : Mem) (p n : ℕ) → IsBytes m → Folds (word_sum m p n) (ones_sum m p n)
ones_sum-Folds m p zero h = omega arith
ones_sum-Folds m p (suc n) h = ground (arith, h p, h (p + 1), ones_sum-Folds m (p + 2) n h)

fold_carries-Folds : (s : ℕ) → s < 2 ^ 32 → Folds s (fold_carries fold_fuel s)
unfolding fold_carries
fold_carries-Folds s h = ground arith

-- The loop that folds the carries ends on any uint32_t within three rounds: with more fuel the
-- result is the same, and it has no carries left.
pub fold_carries_ends :
    (s extra : ℕ)
    → s < 2 ^ 32
    → (fold_carries (3 + extra) s ≡ fold_carries fold_fuel s)
      × (fold_carries fold_fuel s / 2 ^ 16 ≡ 0)
unfolding fold_carries
fold_carries_ends s extra h =
    let three : 3 + extra ≡ suc (suc (suc extra)) = omega arith in rw three (ground arith)

word_sum-above : (m : Mem) (a v p n : ℕ) → a + 2 ≤ p → word_sum (store16 m a v) p n ≡ word_sum m p n
word_sum-above m a v p zero h = refl
word_sum-above m a v p (suc n) h = ground (arith, word_sum-above m a v (p + 2) n (omega arith))

-- A store to one word of a range replaces its share of the sum.
word_sum-store16 :
    (m : Mem) (p n i a v : ℕ)
    → i < n
    → a ≡ p + 2 * i
    → word_sum (store16 m a v) p n + load16 m a ≡ word_sum m p n + v % 65536
word_sum-store16 m p zero i a v h e = absurd (omega arith)
word_sum-store16 m p (suc n) zero a v h e =
    subst (λ t. word_sum (store16 m t v) p (suc n) + load16 m t ≡ word_sum m p (suc n) + v % 65536)
      (let q : p ≡ a = omega arith in q)
      (omega (arith, load16-store16 m p v, word_sum-above m p v (p + 2) n (omega arith)))
word_sum-store16 m p (suc n) (suc i) a v h e =
    ground (arith, word_sum-store16 m (p + 2) n i a v (omega arith) (omega arith))

-- The stored checksum makes the header's ones' complement sum 0xFFFF.
complement_lem :
    (rest r c s r' : ℕ)
    → Folds rest r
    → c ≡ (2 ^ 32 - 1 - r) % 2 ^ 16
    → s ≡ rest + c
    → Folds s r'
    → r' ≡ 0xFFFF
complement_lem rest r c s r' f e g f' = grind arith

pub set_ip_chksum-other :
    (m : Mem) (ip a : ℕ) → a ≢ ip + 10 → a ≢ ip + 11 → set_ip_chksum m ip a ≡ m a
unfolding set_ip_chksum
set_ip_chksum-other m ip a p q = ground arith

-- `set_ip_chksum` writes the two bytes of the checksum field only, and on a header of at least
-- three 32-bit words, as its length field tells, it makes the ones' complement sum of all the
-- header's 16-bit words 0xFFFF, which is what a receiver checks.
pub set_ip_chksum_lem :
    (m : Mem) (ip : ℕ)
    → IsBytes m
    → 3 ≤ m ip % 16
    → (ones_sum (set_ip_chksum m ip) ip (2 * (m ip % 16)) ≡ 0xFFFF)
      × ((a : ℕ) → a ≢ ip + 10 → a ≢ ip + 11 → set_ip_chksum m ip a ≡ m a)
unfolding set_ip_chksum
set_ip_chksum_lem m ip h len = (sums, set_ip_chksum-other m ip)
  where
    cleared : Mem
    cleared = store16 m (ip + 10) 0

    n : ℕ
    n = 2 * (m ip % 16)

    words : cleared ip % 16 * 4 / 2 ≡ n
    words = ground arith

    sum : add_words cleared ip n 0 ≡ word_sum cleared ip n
    sum = add_words-eq cleared ip n 0 (store16-IsBytes m (ip + 10) 0 h) (omega arith) ∙ omega arith

    small : word_sum cleared ip n < 2 ^ 32
    small = omega (arith, word_sum-le cleared ip n (store16-IsBytes m (ip + 10) 0 h))

    check : ℕ
    check = (2 ^ 32 - 1 - fold_carries fold_fuel (word_sum cleared ip n)) % 2 ^ 16

    sums : ones_sum (set_ip_chksum m ip) ip n ≡ 0xFFFF
    sums =
        rw (words, sum)
          (complement_lem (word_sum cleared ip n) (fold_carries fold_fuel (word_sum cleared ip n))
            check (word_sum (store16 cleared (ip + 10) check) ip n)
            (ones_sum (store16 cleared (ip + 10) check) ip n)
            (fold_carries-Folds (word_sum cleared ip n) small) refl
            (omega (
              arith,
              word_sum-store16 cleared ip n 5 (ip + 10) check (omega arith) (omega arith),
              load16-store16 m (ip + 10) 0,
            ))
            (ones_sum-Folds (store16 cleared (ip + 10) check) ip n
              (store16-IsBytes cleared (ip + 10) check (store16-IsBytes m (ip + 10) 0 h))))
