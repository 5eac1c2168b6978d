-- ===== src/PingNode/Tests.antt =====
-- Three nodes.
use micro_ros_demos.Prelude.{ℕ, ◌≡◌, true, List, [], ◌∷◌}
use micro_ros_demos.PingNode.{Header, PingNode, ping_timer_callback}
use micro_ros_demos.PingNode.Round.{
  Received, ping, pong, handle_all, own_pongs, foreign_pings, ping_round_lem,
}

-- Prints the two numbers as two letters around an underscore.
abbrev print : ℕ → ℕ → List ℕ
print a b = a ∷ 95 ∷ b ∷ []

abbrev hello : ℕ → ℕ → Header
hello seq_no device_id = record { sec = 7; nanosec = 8; frame_id = print seq_no device_id }

abbrev node : ℕ → PingNode
node id = record {
  outcoming_ping = hello 50 id;
  device_id = id;
  seq_no = 50;
  pong_count = 9;
  pings = [];
  pongs = [];
}

abbrev messages : List Received
messages = ping (hello 60 1) ∷ pong (hello 60 1) ∷ ping (hello 50 2) ∷ pong (hello 50 3) ∷ []

round_of_node :
    let t = handle_all messages (ping_timer_callback print true 60 7 8 (node 1)) in
    (t.pings ≡ hello 60 1 ∷ [])
    × (t.pong_count ≡ own_pongs (print 60 1) messages)
    × (t.pongs ≡ foreign_pings (print 60 1) messages)
round_of_node = ping_round_lem print 60 7 8 messages (node 1)
