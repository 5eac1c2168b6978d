-- ===== src/UdpTransport/Tests.antt =====
-- A network whose second address takes the connection, and one without an address.
use micro_ros_demos.Prelude.{
  ℕ, ◌≤◌, ◌≡◌, ◌⊎◌, ◌↔◌, refl, true, false, List, [], ◌∷◌, Option, some, none, ltb, arith, length,
}
use micro_ros_demos.UdpTransport.{
  allocated, Transport, Network, custom_transport_open, custom_transport_close,
  custom_transport_write, custom_transport_read, failed, ready, connect_first,
}
use micro_ros_demos.UdpTransport.Sessions.{transfer_lem}

abbrev network : Network
network = record { new_socket = some 3; addresses = some (0 ∷ 1 ∷ []); connects = λ a. ltb 0 a }

abbrev unset : Transport
unset = record { fd = none; pollin = false; peer = none; freed = [] }

second_address :
    custom_transport_open network unset
    ≡ (true, record { fd = some 3; pollin = true; peer = some 1; freed = allocated ∷ [] })
unfolding custom_transport_open connect_first
second_address = refl

close_without_socket : custom_transport_close false unset ≡ true
unfolding custom_transport_close
close_without_socket = refl

abbrev two_sent : Option ℕ
two_sent = some 2

abbrev one_received : Option (List ℕ)
one_received = some (7 ∷ [])

a_write_and_a_read :
    let (written, write_error) = custom_transport_write two_sent in
    let (got, bytes, read_error) = custom_transport_read ready one_received in
    (written ≤ 4)
    × (got ≤ 4)
    × (got ≡ length bytes)
    × (write_error ≡ 0 ⊎ ((write_error ≡ 1) × (written ≡ 0)))
    × (read_error ≡ 0 ⊎ ((read_error ≡ 1) × (got ≡ 0)))
    × ((write_error ≡ 1) ↔ (two_sent ≡ none))
    × ((read_error ≡ 1) ↔ ((ready ≡ failed) ⊎ ((ready ≡ ready) × (one_received ≡ none))))
a_write_and_a_read = transfer_lem 4 two_sent ready one_received (omega arith) (omega arith)
