-- ===== src/Callbacks/ComplexMessages/Printed.antt =====
-- What the two programs print, and that the strings fit their arrays.
use mathlib.Core.List.{append_assoc, append-nil}
use micro_ros_demos.Prelude.{
  ℕ, zero, suc, ◌+◌, ◌-◌, ◌%◌, ◌^◌, ◌≤◌, ◌<◌, ◌≡◌, ◌≢◌, ◌∙◌, refl, sym, ap, Bool, true, false, List,
  [], ◌∷◌, ◌++◌, some, ◌==◌, if◌then◌else◌, length, take, overwrite, arith, length-overwrite,
  lt→ltb,
}
use micro_ros_demos.Prelude.Int.{pos, wrap, bits_of, wrap-eq_iff}
use micro_ros_demos.StringPublisher.{decimal}
use micro_ros_demos.StringPublisher.Texts.{NoZero, NoZero-append, decimal-NoZero, length-decimal}
use micro_ros_demos.Callbacks.ComplexMessages.{
  buff_len, Text, Msg, Out, unsigned, signed, floating, text, until_nul, label, message_text,
  snprintf, print_message, subscription_callback, Publisher, fill, publish_round, publish_rounds,
}

take-all : (n : ℕ) (xs : List ℕ) → length xs ≤ n → take n xs ≡ xs
take-all zero [] h = refl
take-all zero (x ∷ xs) h = absurd (omega arith)
take-all (suc n) [] h = refl
take-all (suc n) (x ∷ xs) h = ap (◌∷◌ x) (take-all n xs (omega arith))

until_nul-overwrite :
    (xs buf : List ℕ)
    → NoZero xs
    → length xs < length buf
    → until_nul (overwrite (xs ++ (0 ∷ [])) buf) ≡ xs
until_nul-overwrite [] [] n h = absurd (omega arith)
until_nul-overwrite [] (y ∷ buf) n h = refl
until_nul-overwrite (x ∷ xs) [] n h = absurd (omega arith)
until_nul-overwrite (x ∷ xs) (y ∷ buf) (ne, n) h =
    let nz : (x == 0) ≡ false = ground arith in
    rw nz (ap (◌∷◌ x) (until_nul-overwrite xs buf n (omega arith)))

until_nul-snprintf :
    (whole : List ℕ) (t : Text)
    → NoZero whole
    → length whole < buff_len
    → length t.buffer ≡ buff_len
    → until_nul (snprintf whole t).buffer ≡ whole
unfolding snprintf
until_nul-snprintf whole t n h e =
    rw (take-all (buff_len - 1) whole (omega arith))
      (until_nul-overwrite whole t.buffer n (omega arith))

length-snprintf : (whole : List ℕ) (t : Text) → length (snprintf whole t).buffer ≡ length t.buffer
unfolding snprintf
length-snprintf whole t = length-overwrite (take (buff_len - 1) whole ++ (0 ∷ [])) t.buffer

message-until_nul :
    (letter num : ℕ) (t : Text)
    → letter ≢ 0
    → length t.buffer ≡ buff_len
    → until_nul (snprintf (message_text letter num) t).buffer ≡ message_text letter num
message-until_nul letter num t ne e =
    until_nul-snprintf (message_text letter num) t
      (NoZero-append (label letter) (decimal 10 num) (label-NoZero) (decimal-NoZero 10 num))
      (omega (arith, length-decimal 10 num)) e
  where
    label-NoZero : NoZero (label letter)
    label-NoZero = omega arith

-- The arrays that main sets up.
pub record Roomy {F : Type 0} (m : Msg F) : Type 0 where
  pub room1 : length m.string1.buffer ≡ buff_len
  pub room2 : length m.string2.buffer ≡ buff_len
  pub room3 : length m.string3.buffer ≡ buff_len
  pub room4 : length m.string4.buffer ≡ buff_len

wrap-small : (half n : ℕ) → 0 < half → n < half → wrap half (pos n) ≡ pos n
wrap-small half n h k = (wrap-eq_iff half (pos n) h).1 k

-- What the subscriber prints of these messages.
abbrev pub heard : {F : Type 0} → List (Msg F) → List (Out F)
heard [] = []
heard (m ∷ ms) = subscription_callback m ++ heard ms

module _ {F : Type 0} (float double : ℕ → F) where
  -- The lines for the number `num`.
  abbrev pub lines_for : ℕ → List (Out F)
  lines_for num =
      unsigned (num % 2)
      ∷ unsigned (num % 2 ^ 8)
      ∷ unsigned (bits_of (2 ^ 32) (wrap (2 ^ 7) (pos num)))
      ∷ floating (float num)
      ∷ floating (double num)
      ∷ signed (wrap (2 ^ 7) (pos num))
      ∷ unsigned (num % 2 ^ 8)
      ∷ signed (wrap (2 ^ 15) (pos num))
      ∷ unsigned (num % 2 ^ 16)
      ∷ signed (pos num)
      ∷ unsigned num
      ∷ signed (pos num)
      ∷ unsigned num
      ∷ text (message_text b'A' num)
      ∷ text (message_text b'B' num)
      ∷ text (message_text b'C' num)
      ∷ text (message_text b'D' num)
      ∷ []

  fill-Roomy : (num : ℕ) (m : Msg F) → Roomy m → Roomy (fill float double num m)
  unfolding fill
  fill-Roomy num m r = record {
    room1 = length-snprintf (message_text b'A' num) m.string1 ∙ r.room1;
    room2 = length-snprintf (message_text b'B' num) m.string2 ∙ r.room2;
    room3 = length-snprintf (message_text b'C' num) m.string3 ∙ r.room3;
    room4 = length-snprintf (message_text b'D' num) m.string4 ∙ r.room4;
  }

  print_message-fill :
      (num : ℕ) (m : Msg F)
      → num < 2 ^ 31
      → Roomy m
      → print_message (fill float double num m) ≡ lines_for num
  unfolding print_message fill
  print_message-fill num m h r =
      let e32 : num % 2 ^ 32 ≡ num = omega arith in
      let e64 : num % 2 ^ 64 ≡ num = omega arith in
      rw
        (
          message-until_nul b'A' num m.string1 (λ z. cc) r.room1,
          message-until_nul b'B' num m.string2 (λ z. cc) r.room2,
          message-until_nul b'C' num m.string3 (λ z. cc) r.room3,
          message-until_nul b'D' num m.string4 (λ z. cc) r.room4,
          wrap-small (2 ^ 31) num (omega arith) h,
          wrap-small (2 ^ 63) num (omega arith) (omega arith),
          e32,
          e64,
        )
        refl

  -- The lines for the calls from the number `num` on whose publication succeeded.
  abbrev pub all_lines : ℕ → List Bool → List (Out F)
  all_lines num [] = []
  all_lines num (true ∷ oks) = lines_for num ++ all_lines (num + 1) oks
  all_lines num (false ∷ oks) = all_lines (num + 1) oks

  -- The state after a round.
  abbrev filled : Bool → Publisher F → Publisher F
  filled ok s = record {
    num = s.num + 1;
    msg = fill float double s.num s.msg;
    wire = s.wire ++ (if ok then fill float double s.num s.msg ∷ [] else []);
    lines = s.lines ++ (if ok then print_message (fill float double s.num s.msg) else []);
  }

  publish_round-filled :
      (ok : Bool) (s : Publisher F)
      → s.num + 1 < 2 ^ 31
      → publish_round float double ok s ≡ some (filled ok s)
  unfolding publish_round
  publish_round-filled ok s h = rw (lt→ltb (s.num + 1) (2 ^ 31) h) refl

  all_lines-step :
      (ok : Bool) (num : ℕ) (m : Msg F) (oks : List Bool)
      → num < 2 ^ 31
      → Roomy m
      → (if ok then print_message (fill float double num m) else []) ++ all_lines (num + 1) oks
        ≡ all_lines num (ok ∷ oks)
  all_lines-step true num m oks h r =
      ap (λ l. l ++ all_lines (num + 1) oks) (print_message-fill num m h r)
  all_lines-step false num m oks h r = refl

  heard-step :
      (ok : Bool) (m : Msg F) (ms : List (Msg F))
      → heard ((if ok then m ∷ [] else []) ++ ms) ≡ (if ok then print_message m else []) ++ heard ms
  unfolding subscription_callback
  heard-step true m ms = refl
  heard-step false m ms = refl

  -- With its four arrays of 30 bytes and while the number stays below 2^31, the publisher prints
  -- the lines of each number whose publication succeeded, with the whole of each string, and so
  -- does a subscriber that gets what it publishes.
  pub publish_rounds_lem :
      (oks : List Bool) (s : Publisher F)
      → s.num + length oks < 2 ^ 31
      → Roomy s.msg
      → (s' : Publisher F) × (ms : List (Msg F)) × (publish_rounds float double oks s ≡ some s')
        × (s'.num ≡ s.num + length oks)
        × (s'.wire ≡ s.wire ++ ms)
        × (s'.lines ≡ s.lines ++ all_lines s.num oks)
        × (heard ms ≡ all_lines s.num oks)
  unfolding publish_rounds
  publish_rounds_lem [] s h r =
      (s, [], refl, omega arith, sym (append-nil s.wire), sym (append-nil s.lines), refl)
  publish_rounds_lem (ok ∷ oks) s h r =
      let m = fill float double s.num s.msg in
      let (s', ms, run, num, wire, lines, same) =
        publish_rounds_lem oks (filled ok s) (omega arith) (fill-Roomy s.num s.msg r) in
      let step = all_lines-step ok s.num s.msg oks (omega arith) r in
      (
        s',
        (if ok then m ∷ [] else []) ++ ms,
        rw (publish_rounds, publish_round-filled ok s (omega arith)) run,
        omega arith,
        wire ∙ append_assoc s.wire (if ok then m ∷ [] else []) ms,
        lines
            ∙ append_assoc s.lines (if ok then print_message m else []) (all_lines (s.num + 1) oks)
            ∙ ap (◌++◌ s.lines) step,
        heard-step ok m ms ∙ ap (◌++◌ (if ok then print_message m else [])) same ∙ step,
      )
