-- ===== src/UdpTransport/Sessions.antt =====
-- When the transport is connected, and what its reads and writes report.
use micro_ros_demos.Prelude.{
  ℕ, ◌≤◌, ◌≡◌, Bool, true, false, List, [], ◌∷◌, ◌++◌, Option, some, none, arith, length, ◌⊎◌, ◌↔◌,
}
use micro_ros_demos.UdpTransport.{
  Transport, Network, custom_transport_write, Poll, failed, timed_out, ready, custom_transport_read,
}

-- No address of the list takes a connection.
abbrev pub NoneConnects : (ℕ → Bool) → List ℕ → Type 0
NoneConnects connects [] = Unit {0}
NoneConnects connects (a ∷ addresses) = (connects a ≡ false) × NoneConnects connects addresses

-- The socket and the address list can be had, and `a` is the first address that takes a connection.
abbrev pub FirstTaken : Network → ℕ → Type 0
FirstTaken n a =
    (fd : ℕ) × (n.new_socket ≡ some fd)
    × (before : List ℕ) × (later : List ℕ) × (n.addresses ≡ some (before ++ (a ∷ later)))
    × NoneConnects n.connects before
    × (n.connects a ≡ true)

-- A transport that has never been connected.
abbrev pub Unconnected : Transport → Type 0
Unconnected t = (t.peer ≡ none) × (t.pollin ≡ false)

module _ (connects : ℕ → Bool) (t : Transport) (u : Unconnected t) where
  abbrev network : Option ℕ → Option (List ℕ) → Network
  network s addresses = record { new_socket = s; addresses = addresses; connects = connects }

-- `recv` gives at most as many bytes as it has room for, and `send` sends at most what it is given.
abbrev pub AtMost : ℕ → Option ℕ → Type 0
AtMost len none = Unit {0}
AtMost len (some n) = n ≤ len

abbrev pub count : Option (List ℕ) → Option ℕ
count none = none
count (some bytes) = some (length bytes)

-- Neither a write nor a read reports more than `len` bytes, or any byte with an error. A write
-- reports an error exactly if `send` fails, a read exactly if `poll` fails or it finds data and
-- `recv` fails, and what a read reports is how many bytes are in the buffer.
pub transfer_lem :
    (len : ℕ) (sent : Option ℕ) (polled : Poll) (received : Option (List ℕ))
    → AtMost len sent
    → AtMost len (count received)
    → let (written, write_error) = custom_transport_write sent in
      let (got, bytes, read_error) = custom_transport_read polled received in
      (written ≤ len)
      × (got ≤ len)
      × (got ≡ length bytes)
      × (write_error ≡ 0 ⊎ ((write_error ≡ 1) × (written ≡ 0)))
      × (read_error ≡ 0 ⊎ ((read_error ≡ 1) × (got ≡ 0)))
      × ((write_error ≡ 1) ↔ (sent ≡ none))
      × ((read_error ≡ 1) ↔ ((polled ≡ failed) ⊎ ((polled ≡ ready) × (received ≡ none))))
unfolding custom_transport_write custom_transport_read
transfer_lem len none failed none s r = ground arith
transfer_lem len none failed (some bs) s r = ground arith
transfer_lem len none timed_out none s r = ground arith
transfer_lem len none timed_out (some bs) s r = ground arith
transfer_lem len none ready none s r = ground arith
transfer_lem len none ready (some bs) s r = ground arith
transfer_lem len (some n) failed none s r = ground arith
transfer_lem len (some n) failed (some bs) s r = ground arith
transfer_lem len (some n) timed_out none s r = ground arith
transfer_lem len (some n) timed_out (some bs) s r = ground arith
transfer_lem len (some n) ready none s r = ground arith
transfer_lem len (some n) ready (some bs) s r = ground arith
