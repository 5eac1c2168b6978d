-- ===== src/StringPublisher/Texts.antt =====
-- What the timer publishes.
use mathlib.Core.List.{append_assoc, append-nil}
use micro_ros_demos.Prelude.{
  ℕ, zero, suc, ◌+◌, ◌-◌, ◌*◌, ◌/◌, ◌%◌, ◌^◌, ◌≤◌, ◌<◌, ◌≡◌, ◌≢◌, ◌∙◌, refl, sym, ap, true, false,
  List, [], ◌∷◌, ◌++◌, some, arith, ◌==◌, ltb, length, take, drop, overwrite, length-overwrite,
  take-overwrite, lt→ltb, length-append, Bool-cases, inl, inr,
}
use micro_ros_demos.StringPublisher.{
  greeting, decimal, text, strlen, Publisher, timer_callback, ticks, array_len,
}

pub length-decimal : (d n : ℕ) → length (decimal d n) ≤ d
unfolding decimal
length-decimal zero n = omega arith
length-decimal (suc d) n = elim (Bool-cases (ltb n 10)) [
  | inl e ↦ rw (decimal, e) (omega arith)
  | inr e ↦
      rw (decimal, e)
        (omega (
          arith,
          length-append (decimal d (n / 10)) ((b'0' + n % 10) ∷ []),
          length-decimal d (n / 10),
        ))
]

-- The number that digits stand for, behind one that was read already.
abbrev pub value : ℕ → List ℕ → ℕ
value acc [] = acc
value acc (x ∷ xs) = value (acc * 10 + (x - b'0')) xs

value-append : (acc : ℕ) (xs ys : List ℕ) → value acc (xs ++ ys) ≡ value (value acc xs) ys
value-append acc [] ys = refl
value-append acc (x ∷ xs) ys = value-append (acc * 10 + (x - b'0')) xs ys

value-decimal : (d n : ℕ) → n < 10 ^ d → value 0 (decimal d n) ≡ n
unfolding decimal
value-decimal zero n h = omega arith
value-decimal (suc d) n h = elim (Bool-cases (ltb n 10)) [
  | inl e ↦ let small : n < 10 = ground arith in rw (decimal, e) (omega arith)
  | inr e ↦
      let smaller : n / 10 < 10 ^ d = omega arith in
      rw (decimal, e)
        (value-append 0 (decimal d (n / 10)) ((b'0' + n % 10) ∷ [])
          ∙ ap (λ v. v * 10 + (b'0' + n % 10 - b'0')) (value-decimal d (n / 10) smaller)
          ∙ omega arith)
]

abbrev pub NoZero : List ℕ → Type 0
NoZero [] = Unit {0}
NoZero (x ∷ xs) = (x ≢ 0) × NoZero xs

pub NoZero-append : (xs ys : List ℕ) → NoZero xs → NoZero ys → NoZero (xs ++ ys)
NoZero-append [] ys h k = k
NoZero-append (x ∷ xs) ys (ne, h) k = (ne, NoZero-append xs ys h k)

pub decimal-NoZero : (d n : ℕ) → NoZero (decimal d n)
unfolding decimal
decimal-NoZero zero n = tt
decimal-NoZero (suc d) n = elim (Bool-cases (ltb n 10)) [
  | inl e ↦ rw (decimal, e) (λ z. omega (arith, z), tt)
  | inr e ↦
      rw (decimal, e)
        (NoZero-append (decimal d (n / 10)) ((b'0' + n % 10) ∷ []) (decimal-NoZero d (n / 10))
          (λ z. omega (arith, z), tt))
]

strlen-overwrite :
    (xs buf : List ℕ)
    → NoZero xs
    → length xs < length buf
    → strlen (overwrite (xs ++ (0 ∷ [])) buf) ≡ length xs
strlen-overwrite [] [] n h = absurd (omega arith)
strlen-overwrite [] (y ∷ buf) n h = refl
strlen-overwrite (x ∷ xs) [] n h = absurd (omega arith)
strlen-overwrite (x ∷ xs) (y ∷ buf) (ne, n) h =
    let nz : (x == 0) ≡ false = ground arith in
    rw nz (ap suc (strlen-overwrite xs buf n (omega arith)))

greeting-NoZero : NoZero greeting
greeting-NoZero = omega arith

text-NoZero : (n : ℕ) → NoZero (text n)
text-NoZero n = NoZero-append greeting (decimal 10 n) greeting-NoZero (decimal-NoZero 10 n)

text-short : (n : ℕ) → length (text n) ≤ 32
text-short n = omega (arith, length-decimal 10 n)

abbrev pub texts : ℕ → ℕ → List (List ℕ)
texts k zero = []
texts k (suc n) = text k ∷ texts (k + 1) n

timer-publishes :
    (s : Publisher)
    → length s.buffer ≡ array_len
    → s.counter + 1 < 2 ^ 31
    → (s' : Publisher) × (timer_callback true s ≡ some s')
      × (length s'.buffer ≡ array_len)
      × (s'.counter ≡ s.counter + 1)
      × (s'.published ≡ s.published ++ (text s.counter ∷ []))
      × (s'.size ≡ length (text s.counter))
unfolding timer_callback
timer-publishes s room small =
    let filled = overwrite (text s.counter ++ (0 ∷ [])) s.buffer in
    let fits : length (text s.counter) < length s.buffer =
      omega (arith, text-short s.counter, room) in
    let measured = strlen-overwrite (text s.counter) s.buffer (text-NoZero s.counter) fits in
    (
      record {
        buffer = filled;
        size = strlen filled;
        counter = s.counter + 1;
        published = s.published ++ (take (strlen filled) filled ∷ []);
      },
      rw
          (
            timer_callback,
            lt→ltb (length (text s.counter)) (length s.buffer) fits,
            lt→ltb (s.counter + 1) (2 ^ 31) small,
          )
          refl,
      length-overwrite (text s.counter ++ (0 ∷ [])) s.buffer ∙ room,
      refl,
      ap (λ k. s.published ++ (take k filled ∷ [])) measured
          ∙ ap (λ b. s.published ++ (b ∷ []))
              (take-overwrite (text s.counter) (0 ∷ []) s.buffer (omega arith)),
      measured,
    )

-- From a counter `k` on, with the buffer of 200 bytes that main allocates, `n` calls of the timer
-- that keep the counter below INT_MAX never write beyond the buffer. They publish one text each,
-- in order, and the digits of each text behind the greeting are its number.
pub ticks_lem :
    (n : ℕ) (s : Publisher)
    → length s.buffer ≡ array_len
    → s.counter + n < 2 ^ 31
    → (s' : Publisher) × (ticks n s ≡ some s')
      × (s'.counter ≡ s.counter + n)
      × (s'.published ≡ s.published ++ texts s.counter n)
      × ((k : ℕ) → k < 2 ^ 31 → value 0 (drop 22 (text k)) ≡ k)
unfolding ticks
ticks_lem zero s room small =
    (s, refl, omega arith, sym (append-nil s.published), λ k h. value-decimal 10 k (omega arith))
ticks_lem (suc n) s room small =
    let (s1, e1, room1, count1, pub1, size1) = timer-publishes s room (omega arith) in
    let (s2, e2, count2, pub2, values) = ticks_lem n s1 room1 (omega arith) in
    (
      s2,
      rw (ticks, e1) e2,
      omega arith,
      pub2
          ∙ ap (λ k. s1.published ++ texts k n) count1
          ∙ ap (λ ps. ps ++ texts (s.counter + 1) n) pub1
          ∙ append_assoc s.published (text s.counter ∷ []) (texts (s.counter + 1) n),
      values,
    )
