-- ===== src/PingPong/HandlerTests.antt =====
-- The component on small inputs.
use micro_ros_demos.Prelude.{ℕ, ◌+◌, ◌*◌, ◌≡◌, refl, true, List, [], ◌∷◌, ◌++◌, arith}
use micro_ros_demos.Spsc.{cleared, spsc_empty, spsc_push, spsc_init}
use micro_ros_demos.Channel.{Channel, done}
use micro_ros_demos.Net.{Mac, make_iphdr, make_ethhdr, parse_mac}
use micro_ros_demos.Rclc.{Library, is_safe, exec}
use micro_ros_demos.PingPong.{chan_pingpong, chan_ready}
use micro_ros_demos.PingPong.Handler.{
  Component, Setting, ping, pong, numbered, notified, send_ping, send_pong, send_impl, answer,
  transport_init, set_up_queues, set_up_client,
}
use micro_ros_demos.PingPong.Ready.{fresh_transport, ready_lem}
use micro_ros_demos.PingPong.Numbered.{Numbered}
use micro_ros_demos.PingPong.Numbers.{Notification, run, total, numbers_lem}

abbrev pub mac : ℕ → Mac
mac n = record { b0 = 2; b1 = 0; b2 = 0; b3 = 0; b4 = 0; b5 = n }

abbrev pub setting : Setting
setting = record {
  pp2vmm_at = 0x4000000;
  vmm2pp_at = 0x5000000;
  src_mac = (6, mac 2);
  dst_mac = (6, mac 1);
  src_ip = 0x6402000A;
  dst_ip = 0x0F02000A;
  stack = record { uh_sport = 0; uh_dport = 0; uh_ulen = 0; uh_sum = 0 };
  new_header = record { size = 0; capacity = 1; frame_id = [] };
}

-- One digit and "_0".
abbrev pub print_digit : ℕ → List ℕ
print_digit n = (b'0' + n) ∷ b'_' ∷ b'0' ∷ []

abbrev pub all_succeed : Library
all_succeed log c = true

-- One packet is pending.
abbrev used_region : Channel
used_region = record {
  queue = record (cleared 320 (320 + 4 * 2048) 11 2) { back = 1; producer_cached_back = 1 };
  block = λ p a. 0;
}

abbrev pub component : Component
component = record {
  transport = record {
    pp2vmm = used_region;
    vmm2pp = used_region;
    tx_eth_hdr = record { h_dest = mac 0; h_source = mac 0; h_proto = 0 };
    tx_ip_hdr = make_iphdr 0 0;
    tx_udp_hdr = setting.stack;
    notified = [];
  };
  outgoing_ping = setting.new_header;
  outgoing_pong = setting.new_header;
  seq_num = 0;
  sent = [];
  log = [];
}

ready_lem_example :
    (c' : Component) × (notified setting all_succeed print_digit [] chan_ready component ≡ done c')
    × (c'.transport ≡ fresh_transport setting component.transport)
    × (c'.sent ≡ [] ++ (record { by = 0; header = numbered print_digit 0 setting.new_header } ∷ []))
    × (c'.seq_num ≡ 0 + 1)
    × (is_safe c'.log ≡ true)
ready_lem_example =
    ready_lem setting all_succeed print_digit (λ log c. refl) (refl, refl) [] component refl
      (omega arith)

-- The VMM pushes a packet.
abbrev push_one : Channel → Channel
push_one c = record c { queue = spsc_push c.queue }

-- The guest is ready; then a packet comes, with which a ping and a pong are found; then none.
abbrev start_and_answer : List Notification
start_and_answer =
    record { channel = chan_ready; incoming = []; region = λ c. c }
    ∷ record { channel = chan_pingpong; incoming = ping ∷ pong ∷ []; region = push_one }
    ∷ record { channel = 7; incoming = ping ∷ []; region = λ c. c }
    ∷ []

-- Three messages are sent for them.
three_sent : total setting all_succeed print_digit start_and_answer component ≡ 3
unfolding notified send_ping send_pong send_impl answer spsc_empty spsc_push transport_init
    set_up_queues set_up_client make_ethhdr parse_mac exec spsc_init
three_sent = refl

numbers_lem_example :
    (c' : Component) × (run setting all_succeed print_digit start_and_answer component ≡ done c')
    × Numbered print_digit 1 c'
    × (c'.seq_num ≡ 0 + total setting all_succeed print_digit start_and_answer component)
numbers_lem_example =
    numbers_lem setting all_succeed print_digit (λ log c. refl) (refl, refl) start_and_answer
      component (record { ping_room = refl; pong_room = refl; sent_texts = refl })
      (omega (arith, three_sent))
