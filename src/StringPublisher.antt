-- ===== src/StringPublisher.antt =====
-- rclc/string_publisher/main.c: the message buffer and the timer. The calls of main are in
-- Programs/Topics.antt.
pub mod Texts
mod Tests
use micro_ros_demos.Prelude.{
  ℕ, zero, suc, ◌+◌, ◌/◌, ◌%◌, ◌^◌, Bool, true, false, List, [], ◌∷◌, ◌++◌, Option, some, none,
  ◌==◌, if◌then◌else◌, ltb, length, take, overwrite,
}

abbrev pub array_len : ℕ
array_len = 200

-- "Hello from micro-ROS #"
abbrev pub greeting : List ℕ
greeting =
    b'H' ∷ b'e' ∷ b'l' ∷ b'l' ∷ b'o' ∷ b' ' ∷ b'f' ∷ b'r' ∷ b'o' ∷ b'm' ∷ b' ' ∷ b'm' ∷ b'i' ∷ b'c'
    ∷ b'r' ∷ b'o' ∷ b'-' ∷ b'R' ∷ b'O' ∷ b'S' ∷ b' ' ∷ b'#' ∷ []

-- The decimal digits of a number, of at most as many as the first argument.
unfoldable pub decimal : ℕ → ℕ → List ℕ
decimal zero n = []
decimal (suc digits) n =
    let higher = decimal digits (n / 10) in
    (if ltb n 10 then [] else higher) ++ ((b'0' + n % 10) ∷ [])

-- What `sprintf` makes of the format and a number that is not negative. An int has ten digits at
-- most.
abbrev pub text : ℕ → List ℕ
text n = greeting ++ decimal 10 n

abbrev pub strlen : List ℕ → ℕ
strlen [] = 0
strlen (x ∷ xs) = if x == 0 then 0 else suc (strlen xs)

-- `msg.data.data` and `msg.data.size`, `counter`, and what was passed to `rcl_publish`.
pub record Publisher : Type 0 where
  pub buffer : List ℕ
  pub size : ℕ
  pub counter : ℕ
  pub published : List (List ℕ)

-- `none` is a write beyond the buffer or a counter beyond INT_MAX.
unfoldable pub timer_callback : Bool → Publisher → Option Publisher
timer_callback timer s =
    let filled = overwrite (text s.counter ++ (0 ∷ [])) s.buffer in
    if timer
    then if ltb (length (text s.counter)) (length s.buffer)
      then if ltb (s.counter + 1) (2 ^ 31)
        then some (record {
          buffer = filled;
          size = strlen filled;
          counter = s.counter + 1;
          published = s.published ++ (take (strlen filled) filled ∷ []);
        })
        else none
      else none
    else some s

-- That many calls of the timer.
unfoldable pub ticks : ℕ → Publisher → Option Publisher
ticks zero s = some s
ticks (suc n) s = elim (timer_callback true s) [ none ↦ none | some s' ↦ ticks n s' ]
