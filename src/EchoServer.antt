-- ===== src/EchoServer.antt =====
-- rclc/ping_pong_sel4/vm_echo.c: a program of the guest that sends each UDP packet back.
mod Replies
mod Tests
use micro_ros_demos.Prelude.{
  ℕ, zero, suc, ◌+◌, ◌-◌, true, false, Bool, List, [], ◌∷◌, ◌++◌, Option, some, none, if◌then◌else◌,
  ltb, length, take, overwrite,
}

-- What the kernel knows as a socket's address.
pub record Address : Type 0 where
  pub ip : ℕ
  pub port : ℕ

abbrev pub buf_size : ℕ
buf_size = 1500

-- `buf`, and the packets that were passed to `sendto`.
pub record Server : Type 0 where
  pub buf : List ℕ
  pub sent : List (Address × List ℕ)

-- A packet as it arrives, and `none` where `recvfrom` fails.
abbrev pub Arrival : Type 0
Arrival = Option (Address × List ℕ)

-- `recvfrom` cuts a packet to the room that it is given.
abbrev pub received : List ℕ → List ℕ
received packet = take (buf_size - 1) packet

-- One round of the loop. Behind the bytes stands a NUL; `none` is a write beyond the buffer.
unfoldable pub echo_one : Arrival → Server → Option Server
echo_one none s = some s
echo_one (some (src, packet)) s =
    let n = length (received packet) in
    if ltb 0 n
    then if ltb n (length s.buf)
      then (let filled = overwrite (received packet ++ (0 ∷ [])) s.buf in
          some (record { buf = filled; sent = s.sent ++ ((src, take n filled) ∷ []) }))
      else none
    else some s

unfoldable pub echo_loop : List Arrival → Server → Option Server
echo_loop [] s = some s
echo_loop (a ∷ later) s = elim (echo_one a s) [ none ↦ none | some s' ↦ echo_loop later s' ]

-- main up to the loop: whether `socket` and `bind` succeed decides between an exit code and a state.
pub data End : Type 0 where
  returned : ℕ → End
  serving : Server → End
  overrun : End

unfoldable pub zeros : ℕ → List ℕ
zeros zero = []
zeros (suc n) = 0 ∷ zeros n

unfoldable pub main : Bool → Bool → List Arrival → End
main socket_ok bind_ok arrivals =
    if socket_ok
    then if bind_ok
      then elim (echo_loop arrivals (record { buf = zeros buf_size; sent = [] })) [
        | none ↦ overrun
        | some s ↦ serving s
      ]
      else returned 1
    else returned 1
