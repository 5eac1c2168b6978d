-- ===== src/Callbacks/AddTwoInts.antt =====
-- rclc/addtwoints_server/main.c and rclc/addtwoints_client/main.c: the callbacks of the service.
mod Exchange
mod Tests
use micro_ros_demos.Prelude.{
  ℕ, ◌^◌, Bool, List, [], ◌∷◌, ◌++◌, Option, some, none, ltb, if◌then◌else◌,
}
use micro_ros_demos.Prelude.Int.{ℤ, pos, negsuc, ◌+ℤ◌, wrap}

pub record Request : Type 0 where
  pub a : ℤ
  pub b : ℤ

-- What the server prints, the operands as int, and what it answers.
pub record Server : Type 0 where
  pub lines : List (ℤ × ℤ)
  pub sums : List ℤ

abbrev pub fits_i64 : ℤ → Bool
fits_i64 (pos n) = ltb n (2 ^ 63)
fits_i64 (negsuc n) = ltb n (2 ^ 63)

-- `none` is the overflow of the int64_t sum.
unfoldable pub service_callback : Request → Server → Option Server
service_callback req s =
    if fits_i64 (req.a +ℤ req.b)
    then some (record {
      lines = s.lines ++ ((wrap (2 ^ 31) req.a, wrap (2 ^ 31) req.b) ∷ []);
      sums = s.sums ++ ((req.a +ℤ req.b) ∷ []);
    })
    else none

-- The line that the client prints: its request and the sum.
unfoldable pub client_callback : Request → ℤ → ℤ × ℤ × ℤ
client_callback req sum = (req.a, req.b, sum)
