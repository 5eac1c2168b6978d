-- ===== src/Vmm/ReceptionTests.antt =====
-- A packet of two bytes from the guest.
use micro_ros_demos.Prelude.{
  ℕ, suc, ◌-◌, ◌≡◌, refl, false, List, [], ◌∷◌, ◌++◌, replicate, length, arith,
}
use micro_ros_demos.Spsc.Init.{no_blocks}
use micro_ros_demos.Channel.{done}
use micro_ros_demos.Channel.Contents.{packets}
use micro_ros_demos.Memory.{blit}
use micro_ros_demos.Net.{make_iphdr}
use micro_ros_demos.PingPong.{Transport, chan_pingpong, custom_transport_sel4_read}
use micro_ros_demos.Vmm.{NetBuff, Vmm, process_tx_pending}
use micro_ros_demos.Vmm.Tests.{TwoLists, two_lists, two_lists-ActiveQueue, empty_region, mac}
use micro_ros_demos.Vmm.Reception.{ForUs, guest_bytes, reception_lem}

abbrev us : Transport
us = record {
  pp2vmm = empty_region;
  vmm2pp = empty_region;
  tx_eth_hdr = record { h_dest = mac; h_source = mac; h_proto = 8 };
  tx_ip_hdr = make_iphdr 1 5;
  tx_udp_hdr = record { uh_sport = 1; uh_dport = 9; uh_ulen = 0; uh_sum = 0 };
  notified = [];
}

abbrev buffer : NetBuff
buffer = record { io_or_offset = 2048; len = 60 }

-- An Ethernet, an IP and a UDP header, with an IP and a UDP checksum, and two bytes.
abbrev packet : List ℕ
packet =
    2 ∷ 0 ∷ 0 ∷ 0 ∷ 0 ∷ 1 ∷ 82 ∷ 84 ∷ 0 ∷ 1 ∷ 2 ∷ 3 ∷ 8 ∷ 0 ∷ 0x45 ∷ 0 ∷ 0 ∷ 30 ∷ 1 ∷ 2 ∷ 0x40 ∷ 0
    ∷ 64 ∷ 17 ∷ 0x12 ∷ 0x34 ∷ 5 ∷ 0 ∷ 0 ∷ 0 ∷ 1 ∷ 0 ∷ 0 ∷ 0 ∷ 9 ∷ 0 ∷ 1 ∷ 0 ∷ 0 ∷ 10 ∷ 0x56 ∷ 0x78
    ∷ 5 ∷ 6 ∷ []

abbrev guest : Vmm TwoLists
guest = record {
  pp2vmm = empty_region;
  vmm2pp = empty_region;
  net_rx = record { free = []; active = []; room = 16 };
  net_tx = record { free = []; active = buffer ∷ []; room = 16 };
  rx_data = λ a. 0;
  tx_data = λ a. blit (λ a. 0) 0 packet (a - 2048);
  handed = [];
  notified = [];
  ready_signal_sent = false;
}

for_us : ForUs us (guest_bytes guest buffer) 2
unfolding make_iphdr
for_us = record {
  to_mac = (refl, refl, refl, refl, refl, refl);
  is_ip = (refl, refl);
  to_ip = refl;
  is_udp_packet = refl;
  to_port = refl;
  udp_length = (omega arith, omega arith, refl);
}

reception_lem_example :
    (v' : Vmm TwoLists) × (process_tx_pending two_lists ((0 ∷ []) ∷ []) guest ≡ done v')
    × (v'.notified ≡ [] ++ (chan_pingpong ∷ []))
    × (t' : Transport) × (custom_transport_sel4_read
          (replicate (suc (length (packets empty_region no_blocks))) (v'.vmm2pp.queue.back ∷ []))
          1500
          (record us { vmm2pp = v'.vmm2pp })
        ≡ done (2, 5 ∷ 6 ∷ [], t'))
reception_lem_example =
    reception_lem two_lists (λ n. n.active) two_lists-ActiveQueue 2 buffer us no_blocks guest 1500
      refl (omega arith) (omega arith) for_us (omega arith) (omega arith) tt (omega arith)
