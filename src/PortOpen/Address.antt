-- ===== src/PortOpen/Address.antt =====
-- Which addresses `is_udp_port_open` takes for the port's.
use micro_ros_demos.Prelude.{
  ℕ, ◌+◌, ◌*◌, ◌/◌, ◌%◌, ◌^◌, ◌<◌, ◌≡◌, ◌≢◌, ◌∙◌, refl, ap, Bool, true, false, List, [], ◌∷◌, ◌++◌,
  some, none, arith, ◌==◌, ◌&&◌, ◌||◌,
}
use micro_ros_demos.PortOpen.{Text, hex_digit, port_str, starts_with, contains, Line, scan_lines}

abbrev pub hex4 : ℕ → Text
hex4 p =
    hex_digit (p / 4096 % 16)
    ∷ hex_digit (p / 256 % 16)
    ∷ hex_digit (p / 16 % 16)
    ∷ hex_digit (p % 16)
    ∷ []

port_str-hex4 : (p : ℕ) → p < 2 ^ 16 → port_str p ≡ b':' ∷ hex4 p
unfolding port_str
port_str-hex4 p h =
    let a : p / 268435456 % 16 ≡ 0 = omega arith in
    let b : p / 16777216 % 16 ≡ 0 = omega arith in
    let c : p / 1048576 % 16 ≡ 0 = omega arith in
    let d : p / 65536 % 16 ≡ 0 = omega arith in rw (a, b, c, d) refl

digit_test : (d e : ℕ) → d < 16 → e < 16 → (hex_digit d == hex_digit e) ≡ (d == e)
digit_test d e hd he = ground arith

no_colon : (d : ℕ) → d < 16 → (b':' == hex_digit d) ≡ false
no_colon d h = ground arith

join_digits :
    (a b c d a' b' c' d' p q : ℕ)
    → p ≡ a * 4096 + b * 256 + c * 16 + d
    → q ≡ a' * 4096 + b' * 256 + c' * 16 + d'
    → (a < 16) × (b < 16) × (c < 16) × (d < 16)
    → (a' < 16) × (b' < 16) × (c' < 16) × (d' < 16)
    → ((a == a') && ((b == b') && ((c == c') && ((d == d') && true)))) ≡ (p == q)
join_digits a b c d a' b' c' d' p q ep eq h h' = ground arith

same_digits : (p q : ℕ) → p < 2 ^ 16 → q < 2 ^ 16 → starts_with (hex4 p) (hex4 q) ≡ (p == q)
same_digits p q hp hq =
    rw
      (
        digit_test (p / 4096 % 16) (q / 4096 % 16) (omega arith) (omega arith),
        digit_test (p / 256 % 16) (q / 256 % 16) (omega arith) (omega arith),
        digit_test (p / 16 % 16) (q / 16 % 16) (omega arith) (omega arith),
        digit_test (p % 16) (q % 16) (omega arith) (omega arith),
      )
      (join_digits (p / 4096 % 16) (p / 256 % 16) (p / 16 % 16) (p % 16) (q / 4096 % 16)
        (q / 256 % 16) (q / 16 % 16) (q % 16) p q (omega arith) (omega arith) (omega arith)
        (omega arith))

-- Four digits hold no colon.
no_colon_behind : (p q : ℕ) → contains (b':' ∷ hex4 p) (hex4 q) ≡ false
no_colon_behind p q =
    rw
      (
        no_colon (q / 4096 % 16) (omega arith),
        no_colon (q / 256 % 16) (omega arith),
        no_colon (q / 16 % 16) (omega arith),
        no_colon (q % 16) (omega arith),
      )
      refl

abbrev pub NoColon : Text → Type 0
NoColon [] = Unit {0}
NoColon (x ∷ xs) = (x ≢ b':') × NoColon xs

-- The address of a socket as the table shows it.
abbrev pub local_address : Text → ℕ → Text
local_address ip port = ip ++ (b':' ∷ hex4 port)

or_false : (b : Bool) → (b || false) ≡ b
or_false true = refl
or_false false = refl

contains-colon :
    (p q : ℕ)
    → p < 2 ^ 16
    → q < 2 ^ 16
    → (ip : Text) → NoColon ip
    → contains (b':' ∷ hex4 p) (local_address ip q) ≡ (p == q)
contains-colon p q hp hq [] n = rw (no_colon_behind p q) (or_false _ ∙ same_digits p q hp hq)
contains-colon p q hp hq (x ∷ ip) (ne, n) =
    let differs : (b':' == x) ≡ false = ground arith in rw differs (contains-colon p q hp hq ip n)

pub contains-local_address :
    (p q : ℕ)
    → p < 2 ^ 16
    → q < 2 ^ 16
    → (ip : Text) → NoColon ip
    → contains (port_str p) (local_address ip q) ≡ (p == q)
contains-local_address p q hp hq ip n =
    ap (λ needle. contains needle (local_address ip q)) (port_str-hex4 p hp)
    ∙ contains-colon p q hp hq ip n

-- A line of the table: one that `sscanf` cannot read, or a socket with its address and port.
pub data Row : Type 0 where
  unreadable : Row
  socket : Text → ℕ → Row

abbrev pub line_of : Row → Line
line_of unreadable = none
line_of (socket ip port) = some (local_address ip port)

abbrev pub lines_of : List Row → List Line
lines_of [] = []
lines_of (r ∷ rs) = line_of r ∷ lines_of rs

abbrev pub Wellformed : List Row → Type 0
Wellformed [] = Unit {0}
Wellformed (unreadable ∷ rs) = Wellformed rs
Wellformed (socket ip port ∷ rs) = NoColon ip × (port < 2 ^ 16) × Wellformed rs

-- A socket of the table has the port.
abbrev pub listed : ℕ → List Row → Bool
listed p [] = false
listed p (unreadable ∷ rs) = listed p rs
listed p (socket ip port ∷ rs) = p == port || listed p rs

pub scan_lines-listed :
    (p : ℕ)
    → p < 2 ^ 16
    → (rows : List Row) → Wellformed rows
    → scan_lines (port_str p) (lines_of rows) ≡ listed p rows
unfolding scan_lines
scan_lines-listed p h [] w = refl
scan_lines-listed p h (unreadable ∷ rs) w = scan_lines-listed p h rs w
scan_lines-listed p h (socket ip port ∷ rs) (n, small, w) =
    rw (contains-local_address p port h small ip n, scan_lines-listed p h rs w) refl
