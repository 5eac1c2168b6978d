-- ===== src/Net/Packet.antt =====
-- `make_pkt` against the functions that read a packet.
use micro_ros_demos.Prelude.{
  ℕ, ◌+◌, ◌≤◌, ◌<◌, ◌≡◌, ap, inl, inr, ◌∙◌, arith, List, some, ◌⊎◌, length, true,
}
use micro_ros_demos.Memory.{
  Mem, load16, blit, blit-below, blit-above, load_bytes, load_bytes-agree, load_bytes-blit,
}
use micro_ros_demos.Net.{
  Ethhdr, Iphdr, Udphdr, headers, with_headers, make_pkt, is_udp, get_payload_len, get_payload,
  pkt_len, htons, ipproto_udp, payload_at,
}
use micro_ros_demos.Net.Checksum.{set_ip_chksum-other}

module _ (m : Mem) (payload : List ℕ) (eth : Ethhdr) (ip : Iphdr) (udp : Udphdr) where
  with_headers-header :
      (x : ℕ)
      → x < 42
      → (x < 16) ⊎ (17 < x)
      → with_headers m payload eth ip udp x ≡ headers m eth ip udp x
  unfolding with_headers
  with_headers-header x h p = ground (arith, blit-below (headers m eth ip udp) 42 payload x h)

  -- The header bytes that `make_pkt` does not compute are the ones that it is given.
  pub make_pkt-header :
      (x : ℕ)
      → x < 42
      → (x < 16) ⊎ ((17 < x) × (x < 24)) ⊎ ((25 < x) × (x < 38))
      → make_pkt m payload eth ip udp x ≡ headers m eth ip udp x
  unfolding make_pkt
  make_pkt-header x h p =
      ground (
        arith,
        set_ip_chksum-other (with_headers m payload eth ip udp) 14 x,
        with_headers-header x h,
      )

  make_pkt-payload :
      (x : ℕ)
      → 42 ≤ x
      → make_pkt m payload eth ip udp x ≡ blit (headers m eth ip udp) payload_at payload x
  unfolding make_pkt with_headers
  make_pkt-payload x h =
      ground (arith, set_ip_chksum-other (with_headers m payload eth ip udp) 14 x)

  headers-above : (x : ℕ) → 42 ≤ x → headers m eth ip udp x ≡ m x
  unfolding headers
  headers-above x h = ground arith

  -- Bytes behind the payload stay as they were, so a packet of at most 1500 bytes of payload stays
  -- within the 2048 bytes of its block.
  pub make_pkt-bounds : (x : ℕ) → 42 + length payload ≤ x → make_pkt m payload eth ip udp x ≡ m x
  make_pkt-bounds x h =
      make_pkt-payload x (omega arith)
      ∙ blit-above (headers m eth ip udp) 42 payload x h
      ∙ headers-above x (omega arith)

  make_pkt-uh_ulen : load16 (make_pkt m payload eth ip udp) 38 ≡ htons (8 + length payload)
  unfolding make_pkt
  make_pkt-uh_ulen = omega arith

  make_pkt-protocol : make_pkt m payload eth ip udp 23 ≡ ip.protocol
  unfolding headers
  make_pkt-protocol = make_pkt-header 23 (omega arith) (inr (inl (omega arith, omega arith)))

  make_pkt-is_udp : ip.protocol ≡ ipproto_udp → is_udp (make_pkt m payload eth ip udp) ≡ true
  unfolding is_udp
  make_pkt-is_udp p = rw (make_pkt-protocol, p)

  make_pkt-payload_len :
      ip.protocol ≡ ipproto_udp
      → length payload ≤ 65527
      → get_payload_len (make_pkt m payload eth ip udp) ≡ some (length payload)
  unfolding get_payload_len
  make_pkt-payload_len p h = rw (make_pkt-is_udp p, make_pkt-uh_ulen) (ap some (omega arith))

  -- A UDP packet from `make_pkt` with a payload that its length field can count reads back: its
  -- payload, the payload's length and the length of the packet are those that went in.
  pub make_pkt_reads_back :
      ip.protocol ≡ ipproto_udp
      → length payload ≤ 65527
      → let pkt = make_pkt m payload eth ip udp in
        (is_udp pkt ≡ true)
        × (get_payload_len pkt ≡ some (length payload))
        × (pkt_len pkt ≡ some (42 + length payload))
        × (get_payload pkt ≡ some payload_at)
        × (load_bytes pkt payload_at (length payload) ≡ payload)
  unfolding pkt_len get_payload
  make_pkt_reads_back p h = (
    make_pkt-is_udp p,
    make_pkt-payload_len p h,
    rw (make_pkt-payload_len p h, pkt_len) (ap some (omega arith)),
    rw (make_pkt-is_udp p),
    load_bytes-agree (make_pkt m payload eth ip udp)
          (blit (headers m eth ip udp) payload_at payload) payload_at (length payload)
          (λ x l u. make_pkt-payload x l)
        ∙ load_bytes-blit (headers m eth ip udp) payload_at payload,
  )
