-- ===== src/PingPong/Address.antt =====
-- Which packets `is_addressed_to_me` lets through.
use micro_ros_demos.Prelude.{ℕ, ◌^◌, ◌<◌, ◌≡◌, ◌↔◌, inl, inr, List, arith, true}
use micro_ros_demos.Memory.{Mem}
use micro_ros_demos.Net.{Ethhdr, Iphdr, Udphdr, htons, eth_p_ip, ipproto_udp, make_pkt, headers}
use micro_ros_demos.Net.Packet.{make_pkt-header}
use micro_ros_demos.PingPong.{Transport, is_addressed_to_me}

-- Every field that the test reads fits in its place in the packet.
pub record InRange (t : Transport) (eth : Ethhdr) (ip : Iphdr) (udp : Udphdr) : Type 0 where
  pub proto_small : eth.h_proto < 2 ^ 16
  pub daddr_small : ip.daddr < 2 ^ 32
  pub dport_small : udp.uh_dport < 2 ^ 16
  pub saddr_small : t.tx_ip_hdr.saddr < 2 ^ 32
  pub sport_small : t.tx_udp_hdr.uh_sport < 2 ^ 16

module _ (t : Transport) (m : Mem) (payload : List ℕ) (eth : Ethhdr) (ip : Iphdr)
    (udp : Udphdr) where
  addressed-headers :
      is_addressed_to_me t (make_pkt m payload eth ip udp)
      ≡ is_addressed_to_me t (headers m eth ip udp)
  unfolding is_addressed_to_me
  addressed-headers = rw (
    low 0 (omega arith),
    low 1 (omega arith),
    low 2 (omega arith),
    low 3 (omega arith),
    low 4 (omega arith),
    low 5 (omega arith),
    low 12 (omega arith),
    low 13 (omega arith),
    mid 23 (omega arith),
    high 30 (omega arith),
    high 31 (omega arith),
    high 32 (omega arith),
    high 33 (omega arith),
    high 36 (omega arith),
    high 37 (omega arith),
  )
    where
      low : (x : ℕ) → x < 16 → make_pkt m payload eth ip udp x ≡ headers m eth ip udp x
      low x h = make_pkt-header m payload eth ip udp x (omega arith) (inl h)

      mid : (x : ℕ) → (17 < x) × (x < 24) → make_pkt m payload eth ip udp x ≡ headers m eth ip udp x
      mid x h = make_pkt-header m payload eth ip udp x (omega arith) (inr (inl h))

      high :
          (x : ℕ) → (25 < x) × (x < 38) → make_pkt m payload eth ip udp x ≡ headers m eth ip udp x
      high x h = make_pkt-header m payload eth ip udp x (omega arith) (inr (inr h))

  -- A packet from `make_pkt` passes the test exactly if its destination is this endpoint's MAC
  -- address, IP address and UDP port, and it says that it is IP and UDP.
  pub is_addressed_lem :
      InRange t eth ip udp
      → (is_addressed_to_me t (make_pkt m payload eth ip udp) ≡ true) ↔ (
          (eth.h_dest ≡ t.tx_eth_hdr.h_source)
          × (eth.h_proto ≡ htons eth_p_ip)
          × (ip.daddr ≡ t.tx_ip_hdr.saddr)
          × (ip.protocol ≡ ipproto_udp)
          × (udp.uh_dport ≡ t.tx_udp_hdr.uh_sport))
  unfolding is_addressed_to_me headers
  is_addressed_lem r = rw addressed-headers (λ h. ground arith, λ h. ground arith)
