-- ===== src/PingPong/Tests.antt =====
-- The transport between two endpoints on small inputs.
use micro_ros_demos.Prelude.{
  ℕ, ◌+◌, ◌*◌, ◌^◌, ◌≤◌, ◌<◌, ◌≡◌, ◌↔◌, refl, true, List, [], ◌∷◌, replicate, arith, length,
  if◌then◌else◌, ◌==◌,
}
use micro_ros_demos.Memory.{Mem}
use micro_ros_demos.Spsc.{cleared}
use micro_ros_demos.Spsc.Invariant.{Ghost, Counters}
use micro_ros_demos.Spsc.Init.{no_blocks}
use micro_ros_demos.Channel.{Channel, done, waits}
use micro_ros_demos.Net.{
  Mac, Udphdr, make_pkt, make_iphdr, make_udphdr, htons, eth_p_ip, ipproto_udp, set_ip_chksum,
  headers, with_headers,
}
use micro_ros_demos.PingPong.{Transport, custom_transport_sel4_write, is_addressed_to_me}
use micro_ros_demos.PingPong.Write.{Wrote, custom_transport_write_lem}
use micro_ros_demos.PingPong.Read.{Received, custom_transport_read_lem}
use micro_ros_demos.PingPong.Address.{InRange, is_addressed_lem}

abbrev mac : ℕ → Mac
mac n = record { b0 = 0x52; b1 = 0x54; b2 = 0; b3 = 0; b4 = 0; b5 = n }

abbrev no_udp : Udphdr
no_udp = record { uh_sport = 0; uh_dport = 0; uh_ulen = 0; uh_sum = 0 }

-- A packet from machine 1 to machine `n`.
abbrev to_machine : ℕ → List ℕ → Mem
to_machine n payload =
    make_pkt (λ a. 0) payload
      (record { h_dest = mac n; h_source = mac 1; h_proto = htons eth_p_ip })
      (make_iphdr 0x0100A8C0 0x0200A8C0) (make_udphdr no_udp 8888 9999)

-- Four blocks, of which the first two are in use, the first for machine 3 and the second for us.
abbrev two_packets : Channel
two_packets = record {
  queue = record (cleared 320 (320 + 4 * 2048) 11 2) { back = 2; producer_cached_back = 2 };
  block = λ p. if p == 320 then to_machine 3 (7 ∷ []) else to_machine 2 (10 ∷ 20 ∷ 30 ∷ []);
}

-- We are machine 2.
abbrev ours : Transport
ours = record {
  pp2vmm = record { queue = cleared 320 (320 + 4 * 2048) 11 2; block = λ p a. 0 };
  vmm2pp = two_packets;
  tx_eth_hdr = record { h_dest = mac 1; h_source = mac 2; h_proto = htons eth_p_ip };
  tx_ip_hdr = make_iphdr 0x0200A8C0 0x0100A8C0;
  tx_udp_hdr = make_udphdr no_udp 9999 8888;
  notified = [];
}

abbrev two_pending : Ghost
two_pending = record { popped = 0; pushed = 2; seen_popped = 0; seen_pushed = 0 }

custom_transport_read_lem_example :
    Received ours 1500 (to_machine 2 (10 ∷ 20 ∷ 30 ∷ [])) [] (length (to_machine 3 (7 ∷ []) ∷ []))
unfolding is_addressed_to_me make_pkt set_ip_chksum headers with_headers make_iphdr make_udphdr
custom_transport_read_lem_example =
    custom_transport_read_lem ours two_pending (to_machine 3 (7 ∷ []) ∷ [])
      (to_machine 2 (10 ∷ 20 ∷ 30 ∷ [])) [] 1500 (omega arith) refl (refl, tt) refl

ours-Counters : Counters ours.pp2vmm.queue no_blocks
ours-Counters = omega arith

custom_transport_write_lem_example :
    ((seen : List ℕ)
      → 1500 < 2
      → custom_transport_sel4_write seen (5 ∷ 6 ∷ []) ours ≡ done (0, ours))
    × (2 ≤ 1500
        → 0 < 0 + 2 ^ 2
        → (t' : Transport) × (custom_transport_sel4_write (0 ∷ []) (5 ∷ 6 ∷ []) ours ≡ done (2, t'))
          × Wrote ours no_blocks (5 ∷ 6 ∷ []) t')
    × (2 ≤ 1500
        → 0 ≡ 0 + 2 ^ 2
        → (n : ℕ) → custom_transport_sel4_write (replicate n 0) (5 ∷ 6 ∷ []) ours ≡ waits)
unfolding make_iphdr
custom_transport_write_lem_example =
    custom_transport_write_lem (5 ∷ 6 ∷ []) ours no_blocks ours-Counters refl

ours-InRange : InRange ours ours.tx_eth_hdr ours.tx_ip_hdr ours.tx_udp_hdr
unfolding make_iphdr make_udphdr
ours-InRange = omega arith

-- A packet that we send is not for us.
is_addressed_lem_example :
    (is_addressed_to_me ours (make_pkt (λ a. 0) [] ours.tx_eth_hdr ours.tx_ip_hdr ours.tx_udp_hdr)
      ≡ true)
    ↔ ((ours.tx_eth_hdr.h_dest ≡ ours.tx_eth_hdr.h_source)
        × (ours.tx_eth_hdr.h_proto ≡ htons eth_p_ip)
        × (ours.tx_ip_hdr.daddr ≡ ours.tx_ip_hdr.saddr)
        × (ours.tx_ip_hdr.protocol ≡ ipproto_udp)
        × (ours.tx_udp_hdr.uh_dport ≡ ours.tx_udp_hdr.uh_sport))
is_addressed_lem_example =
    is_addressed_lem ours (λ a. 0) [] ours.tx_eth_hdr ours.tx_ip_hdr ours.tx_udp_hdr ours-InRange
