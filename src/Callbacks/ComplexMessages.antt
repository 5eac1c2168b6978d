-- ===== src/Callbacks/ComplexMessages.antt =====
-- rclc/complex_msg_publisher/main.c and rclc/complex_msg_subscriber/main.c: the loop that fills and
-- publishes the message, and the callback that prints it. Floating-point numbers are a parameter.
pub mod Printed
mod Tests
use micro_ros_demos.Prelude.{
  ℕ, zero, suc, ◌+◌, ◌-◌, ◌%◌, ◌^◌, Bool, true, false, List, [], ◌∷◌, ◌++◌, Option, some, none, ltb,
  ◌==◌, if◌then◌else◌, length, take, overwrite,
}
use micro_ros_demos.Prelude.Int.{ℤ, pos, wrap, bits_of}
use micro_ros_demos.StringPublisher.{decimal}

-- `sizeof(buff1)`
abbrev pub buff_len : ℕ
buff_len = 30

-- A member of `data14`: the array at `data` and `size`.
pub record Text : Type 0 where
  pub buffer : List ℕ
  pub size : ℕ

-- `complex_msgs__msg__NestedMsgTest`
pub record Msg (F : Type 0) : Type 0 where
  pub data1 : ℕ
  pub data2 : ℕ
  pub data3 : ℤ
  pub data4 : F
  pub data5 : F
  pub data6 : ℤ
  pub data7 : ℕ
  pub data8 : ℤ
  pub data9 : ℕ
  pub data10 : ℤ
  pub data11 : ℕ
  pub data12 : ℤ
  pub data13 : ℕ
  pub string1 : Text
  pub string2 : Text
  pub string3 : Text
  pub string4 : Text

-- What `printf` shows of an argument, by its conversion.
pub data Out (F : Type 0) : Type 0 where
  unsigned : ℕ → Out F
  signed : ℤ → Out F
  floating : F → Out F
  text : List ℕ → Out F

-- the bytes up to the first NUL
abbrev pub until_nul : List ℕ → List ℕ
until_nul [] = []
until_nul (x ∷ xs) = if x == 0 then [] else x ∷ until_nul xs

-- "Msg A - ", for the letter `A`
abbrev pub label : ℕ → List ℕ
label letter = b'M' ∷ b's' ∷ b'g' ∷ b' ' ∷ letter ∷ b' ' ∷ b'-' ∷ b' ' ∷ []

abbrev pub message_text : ℕ → ℕ → List ℕ
message_text letter num = label letter ++ decimal 10 num

-- `snprintf` into the array: at most one byte less than it has, and a NUL. The result is the length
-- of the whole text.
unfoldable pub snprintf : List ℕ → Text → Text
snprintf whole t = record {
  buffer = overwrite (take (buff_len - 1) whole ++ (0 ∷ [])) t.buffer;
  size = length whole;
}

-- The same list of `printf` calls stands in both programs. A `signed char` is printed with %u.
unfoldable pub print_message : {F : Type 0} → Msg F → List (Out F)
print_message m =
    unsigned m.data1
    ∷ unsigned m.data2
    ∷ unsigned (bits_of (2 ^ 32) m.data3)
    ∷ floating m.data4
    ∷ floating m.data5
    ∷ signed m.data6
    ∷ unsigned m.data7
    ∷ signed m.data8
    ∷ unsigned m.data9
    ∷ signed m.data10
    ∷ unsigned m.data11
    ∷ signed m.data12
    ∷ unsigned m.data13
    ∷ text (until_nul m.string1.buffer)
    ∷ text (until_nul m.string2.buffer)
    ∷ text (until_nul m.string3.buffer)
    ∷ text (until_nul m.string4.buffer)
    ∷ []

-- `complex_msg_subscriber`
unfoldable pub subscription_callback : {F : Type 0} → Msg F → List (Out F)
unfolding print_message
subscription_callback m = print_message m

-- `num`, `msg`, what the library took and what was printed.
pub record Publisher (F : Type 0) : Type 0 where
  pub num : ℕ
  pub msg : Msg F
  pub wire : List (Msg F)
  pub lines : List (Out F)

-- `float` and `double` are the conversions of an int.
module _ {F : Type 0} (float double : ℕ → F) where
  unfoldable pub fill : ℕ → Msg F → Msg F
  unfolding snprintf
  fill num m = record {
    data1 = num % 2;
    data2 = num % 2 ^ 8;
    data3 = wrap (2 ^ 7) (pos num);
    data4 = float num;
    data5 = double num;
    data6 = wrap (2 ^ 7) (pos num);
    data7 = num % 2 ^ 8;
    data8 = wrap (2 ^ 15) (pos num);
    data9 = num % 2 ^ 16;
    data10 = wrap (2 ^ 31) (pos num);
    data11 = num % 2 ^ 32;
    data12 = wrap (2 ^ 63) (pos num);
    data13 = num % 2 ^ 64;
    string1 = snprintf (message_text b'A' num) m.string1;
    string2 = snprintf (message_text b'B' num) m.string2;
    string3 = snprintf (message_text b'C' num) m.string3;
    string4 = snprintf (message_text b'D' num) m.string4;
  }

  -- A round of the loop, with the result of `rcl_publish`; `none` is the overflow of `num`.
  unfoldable pub publish_round : Bool → Publisher F → Option (Publisher F)
  unfolding fill print_message
  publish_round ok s =
      let m = fill s.num s.msg in
      if ltb (s.num + 1) (2 ^ 31)
      then some (record {
        num = s.num + 1;
        msg = m;
        wire = s.wire ++ (if ok then m ∷ [] else []);
        lines = s.lines ++ (if ok then print_message m else []);
      })
      else none

  unfoldable pub publish_rounds : List Bool → Publisher F → Option (Publisher F)
  publish_rounds [] s = some s
  publish_rounds (ok ∷ oks) s = elim (publish_round ok s) [
    | none ↦ none
    | some s' ↦ publish_rounds oks s'
  ]
