-- ===== src/PortOpen.antt =====
-- rclc/ping_pong_sel4/is_port_open.c: the guest's program that waits until the agent's UDP port is
-- open and then signals the VMM. Texts are lists of bytes up to their NUL.
pub mod Address
pub mod Signal
mod Tests
use micro_ros_demos.Prelude.{
  ℕ, zero, suc, ◌+◌, ◌-◌, ◌/◌, ◌%◌, Bool, true, false, List, [], ◌∷◌, ◌++◌, Option, some, none,
  ◌==◌, ◌&&◌, ◌||◌, if◌then◌else◌, ltb, take,
}

abbrev pub Text : Type 0
Text = List ℕ

abbrev pub hex_digit : ℕ → ℕ
hex_digit d = if ltb d 10 then b'0' + d else b'A' + d - 10

-- The digits of 32 bits.
abbrev pub hex_digits : ℕ → List ℕ
hex_digits n =
    n / 268435456 % 16
    ∷ n / 16777216 % 16
    ∷ n / 1048576 % 16
    ∷ n / 65536 % 16
    ∷ n / 4096 % 16
    ∷ n / 256 % 16
    ∷ n / 16 % 16
    ∷ n % 16
    ∷ []

-- Takes off up to that many zeros.
abbrev pub strip_zeros : ℕ → List ℕ → List ℕ
strip_zeros zero ds = ds
strip_zeros (suc n) [] = []
strip_zeros (suc n) (d ∷ ds) = if d == 0 then strip_zeros n ds else d ∷ ds

abbrev pub to_text : List ℕ → Text
to_text [] = []
to_text (d ∷ ds) = hex_digit d ∷ to_text ds

-- `snprintf(port_str, 8, ":%04X", port)`, of an int by its 32 bits
unfoldable pub port_str : ℕ → Text
port_str port = take 7 (b':' ∷ to_text (strip_zeros 4 (hex_digits port)))

abbrev pub starts_with : Text → Text → Bool
starts_with [] s = true
starts_with (x ∷ xs) [] = false
starts_with (x ∷ xs) (y ∷ ys) = x == y && starts_with xs ys

-- `strstr(s, needle) != NULL`
abbrev pub contains : Text → Text → Bool
contains needle [] = starts_with needle []
contains needle (y ∷ ys) = starts_with needle (y ∷ ys) || contains needle ys

-- What `sscanf` reads from a line as `local_addr`, and `none` if it does not read both items.
abbrev pub Line : Type 0
Line = Option Text

unfoldable pub scan_lines : Text → List Line → Bool
scan_lines needle [] = false
scan_lines needle (none ∷ ls) = scan_lines needle ls
scan_lines needle (some local_addr ∷ ls) = contains needle local_addr || scan_lines needle ls

-- The lines of /proc/net/udp, of which the first is a heading; `none` is a failure of `fopen`.
unfoldable pub is_udp_port_open : ℕ → Option (List Line) → Bool
is_udp_port_open port none = false
is_udp_port_open port (some []) = false
is_udp_port_open port (some (heading ∷ ls)) = scan_lines (port_str port) ls

-- What is open, and what was written to the register.
pub record Device : Type 0 where
  pub fd_open : Bool
  pub mapped : Bool
  pub written : List ℕ

pub data End : Type 0 where
  returned : ℕ → End
  exited : ℕ → End
  still_waiting : End

-- Whether `open` and `mmap` succeed. The flag is false for `exit(1)`.
unfoldable pub signal_ready : Bool → Bool → Device → Bool × Device
signal_ready opens maps d =
    if opens
    then if maps
      then (
        true,
        record { fd_open = false; mapped = false; written = d.written ++ (0x52454144 ∷ []) },
      )
      else (false, record d { fd_open = false })
    else (false, d)

abbrev pub udp_port : ℕ
udp_port = 12345

abbrev pub one_more : Option ℕ → Option ℕ
one_more none = none
one_more (some n) = some (n + 1)

-- Each table is what one call of `is_udp_port_open` finds; `argument` is what `atoi` makes of
-- `argv[1]`. Also gives how many tables were read.
unfoldable pub wait_for_port : ℕ → List (Option (List Line)) → Option ℕ
wait_for_port port [] = none
wait_for_port port (t ∷ ts) =
    let later = one_more (wait_for_port port ts) in
    if is_udp_port_open port t then some 1 else later

-- The port that main waits for.
abbrev pub awaited : Option ℕ → ℕ
awaited none = udp_port
awaited (some p) = p

unfoldable pub main : Option ℕ → List (Option (List Line)) → Bool → Bool → Device → End × Device
main argument tables opens maps d = elim (wait_for_port (awaited argument) tables) [
  | none ↦ (still_waiting, d)
  | some n ↦
      let (ok, d') = signal_ready opens maps d in if ok then (returned 0, d') else (exited 1, d')
]
