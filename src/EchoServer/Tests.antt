-- ===== src/EchoServer/Tests.antt =====
-- The echo program on three arrivals.
use micro_ros_demos.Prelude.{◌≡◌, ◌&&◌, refl, true, false, List, [], ◌∷◌, some, none}
use micro_ros_demos.EchoServer.{Address, Server, Arrival, returned, serving, main}
use micro_ros_demos.EchoServer.Replies.{replies, echo_lem}

abbrev client : Address
client = record { ip = 0x6402000A; port = 54321 }

abbrev arrivals : List Arrival
arrivals = some (client, 1 ∷ 2 ∷ []) ∷ none ∷ some (client, []) ∷ []

one_reply : replies arrivals ≡ (client, 1 ∷ 2 ∷ []) ∷ []
one_reply = refl

echo_lem_example :
    ((true && true) ≡ true
      → (s : Server) × (main true true arrivals ≡ serving s) × (s.sent ≡ replies arrivals))
    × ((true && true) ≡ false → main true true arrivals ≡ returned 1)
echo_lem_example = echo_lem true true arrivals
