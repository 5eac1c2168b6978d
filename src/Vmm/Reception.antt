-- ===== src/Vmm/Reception.antt =====
-- A packet on its way from the guest to a read of the client.
use micro_ros_demos.Prelude.{
  ℕ, suc, ◌+◌, ◌*◌, ◌^◌, ◌≤◌, ◌<◌, ◌≡◌, ◌∙◌, refl, ap, true, false, List, [], ◌∷◌, ◌++◌, some,
  arith, length, replicate, if◌then◌else◌, ltb,
}
use micro_ros_demos.Memory.{Mem, load16, load32, load_bytes, load_bytes-agree}
use micro_ros_demos.Spsc.Invariant.{Ghost, Counters}
use micro_ros_demos.Channel.{Channel, done}
use micro_ros_demos.Channel.Contents.{packets}
use micro_ros_demos.Net.{is_udp, get_payload_len}
use micro_ros_demos.PingPong.{
  Transport, custom_transport_sel4_read, is_addressed_to_me, chan_pingpong,
}
use micro_ros_demos.PingPong.Read.{AllForeign, Received, custom_transport_read_lem}
use micro_ros_demos.Vmm.{NetBuff, NetLib, Vmm, pkt_size, process_tx_pending}
use micro_ros_demos.Vmm.Client.{ActiveQueue, Copied, cons, nil, process_tx_pending_lem}

-- Two packets with the same headers.
addressed-agree :
    (t : Transport) (p q : Mem)
    → ((x : ℕ) → x < 42 → p x ≡ q x)
    → is_addressed_to_me t p ≡ is_addressed_to_me t q
unfolding is_addressed_to_me
addressed-agree t p q h = rw (
  h 0 (omega arith),
  h 1 (omega arith),
  h 2 (omega arith),
  h 3 (omega arith),
  h 4 (omega arith),
  h 5 (omega arith),
  h 12 (omega arith),
  h 13 (omega arith),
  h 23 (omega arith),
  h 30 (omega arith),
  h 31 (omega arith),
  h 32 (omega arith),
  h 33 (omega arith),
  h 36 (omega arith),
  h 37 (omega arith),
)

payload_len-agree :
    (p q : Mem) → ((x : ℕ) → x < 42 → p x ≡ q x) → get_payload_len p ≡ get_payload_len q
unfolding get_payload_len is_udp
payload_len-agree p q h = rw (h 23 (omega arith), h 38 (omega arith), h 39 (omega arith)) refl

-- Who a packet is for does not depend on the regions.
abbrev with_region : Transport → Channel → Transport
with_region t c = record t { vmm2pp = c }

same_address :
    (t : Transport) (c : Channel) (p : Mem)
    → is_addressed_to_me (with_region t c) p ≡ is_addressed_to_me t p
unfolding is_addressed_to_me
same_address t c p = refl

foreign-region :
    (t : Transport) (c : Channel) (ps : List Mem)
    → AllForeign t ps
    → AllForeign (with_region t c) ps
foreign-region t c [] f = tt
foreign-region t c (p ∷ ps) (e, f) = (same_address t c p ∙ e, foreign-region t c ps f)

-- The one packet that was copied from a single buffer.
one-Copied :
    (tx_data : Mem) (ps : List Mem) (b : NetBuff)
    → Copied tx_data ps (b ∷ [])
    → (p : Mem) × (ps ≡ p ∷ []) × ((x : ℕ) → x < b.len → p x ≡ tx_data (b.io_or_offset + x))
one-Copied tx_data ps b (cons {p} h nil) = (p, refl, h)

-- The bytes of a packet to this endpoint, with the fields of the headers where an IP header without
-- options has them: Ethernet destination and type, IP destination and protocol, UDP destination port,
-- and `n` bytes of payload in the length field of UDP. The other bytes, the checksums and the source
-- among them, may be any.
pub record ForUs (t : Transport) (p : Mem) (n : ℕ) : Type 0 where
  pub to_mac :
      (p 0 ≡ t.tx_eth_hdr.h_source.b0)
      × (p 1 ≡ t.tx_eth_hdr.h_source.b1)
      × (p 2 ≡ t.tx_eth_hdr.h_source.b2)
      × (p 3 ≡ t.tx_eth_hdr.h_source.b3)
      × (p 4 ≡ t.tx_eth_hdr.h_source.b4)
      × (p 5 ≡ t.tx_eth_hdr.h_source.b5)
  pub is_ip : (p 12 ≡ 0x08) × (p 13 ≡ 0x00)
  pub to_ip : load32 p 30 ≡ t.tx_ip_hdr.saddr
  pub is_udp_packet : p 23 ≡ 17
  pub to_port : load16 p 36 ≡ t.tx_udp_hdr.uh_sport
  pub udp_length : (p 38 < 256) × (p 39 < 256) × (p 38 * 256 + p 39 ≡ 8 + n)

-- The bytes that the guest has put into a buffer.
abbrev pub guest_bytes : {N : Type 0} → Vmm N → NetBuff → Mem
guest_bytes v b x = v.tx_data (b.io_or_offset + x)

-- A copy of a packet for this endpoint, as far as its payload goes.
module _ (t : Transport) (p m : Mem) (n : ℕ) (same : (x : ℕ) → x < 42 + n → p x ≡ m x)
    (for_us : ForUs t m n) where
  addressed : is_addressed_to_me t m ≡ true
  unfolding is_addressed_to_me
  addressed =
      let u = for_us in
      let (i0, i1) = u.is_ip in
      let (m0, m1, m2, m3, m4, m5) = u.to_mac in ground (arith, u.to_ip, u.is_udp_packet, u.to_port)

  addressed-copy : is_addressed_to_me t p ≡ true
  addressed-copy = addressed-agree t p m (λ x h. same x (omega arith)) ∙ addressed

  payload_len : get_payload_len m ≡ some n
  unfolding get_payload_len is_udp
  payload_len = rw for_us.is_udp_packet (ap some (omega (arith, for_us.udp_length)))

  payload_len-copy : get_payload_len p ≡ some n
  payload_len-copy = payload_len-agree p m (λ x h. same x (omega arith)) ∙ payload_len

  payload-copy : load_bytes p 42 n ≡ load_bytes m 42 n
  payload-copy = load_bytes-agree p m 42 n (λ x l u. same x (omega arith))

-- What a read of the client returns is the payload, if it fits in its buffer.
received-payload :
    (t : Transport) (len n : ℕ) (p : Mem) (payload : List ℕ) (skipped : ℕ)
    → Received t len p [] skipped
    → get_payload_len p ≡ some n
    → load_bytes p 42 n ≡ payload
    → n ≤ len
    → (t' : Transport) × (custom_transport_sel4_read
          (replicate (suc skipped) (t.vmm2pp.queue.back ∷ []))
          len
          t
        ≡ done (n, payload, t'))
received-payload t len n p payload skipped r count bytes fits =
    let e : r.payload_len ≡ n = ground (arith, r.payload_len_ok, count) in
    let small : ltb len n ≡ false = ground arith in
    (
      r.next,
      r.returns
          ∙ ap
              (λ k.
                done
                  (if ltb len k then 0 else k, if ltb len k then [] else load_bytes p 42 k, r.next))
              e
          ∙ ap (λ b. done (if b then 0 else n, if b then [] else load_bytes p 42 n, r.next)) small
          ∙ ap (λ bs. done (n, bs, r.next)) bytes,
    )

module _ {N : Type 0} (lib : NetLib N) (active : N → List NetBuff)
    (laws : ActiveQueue lib active) where
  -- The guest has one packet for the client in its active buffer: its headers name the client's
  -- addresses and port and say IP, UDP and `n` bytes of payload, which are in the buffer, of at
  -- most 2048 bytes; the rest of the packet, the checksums included, may be anything. The region
  -- has room, and no packet pending in it is for the client. Then the VMM's handler returns and
  -- has notified the client once, and with what the VMM left in the region a read with room for
  -- the payload returns exactly the payload, the `n` bytes behind the three headers.
  pub reception_lem :
      (n : ℕ) (b : NetBuff) (t : Transport) (g : Ghost) (v : Vmm N) (len : ℕ)
      → active v.net_tx ≡ b ∷ []
      → 42 + n ≤ b.len
      → b.len ≤ pkt_size
      → ForUs t (guest_bytes v b) n
      → Counters v.vmm2pp.queue g
      → g.pushed < g.popped + 2 ^ v.vmm2pp.queue.log2_capacity
      → AllForeign t (packets v.vmm2pp g)
      → n ≤ len
      → (v' : Vmm N) × (process_tx_pending lib ((v.vmm2pp.queue.front ∷ []) ∷ []) v ≡ done v')
        × (v'.notified ≡ v.notified ++ (chan_pingpong ∷ []))
        × (t' : Transport) × (custom_transport_sel4_read
              (replicate (suc (length (packets v.vmm2pp g))) (v'.vmm2pp.queue.back ∷ []))
              len
              (record t { vmm2pp = v'.vmm2pp })
            ≡ done (n, load_bytes (guest_bytes v b) 42 n, t'))
  reception_lem n b t g v len sent holds fits for_us k room foreign space =
      let s = process_tx_pending_lem lib active laws (b ∷ []) v g sent (fits, tt) k (omega arith) in
      let (p, one, copied) = one-Copied v.tx_data s.new b s.copied in
      let m : Mem = guest_bytes v b in
      let same : (x : ℕ) → x < 42 + n → p x ≡ m x = λ x h. copied x (omega arith) in
      let found =
        custom_transport_read_lem (with_region t s.after.vmm2pp) s.seen (packets v.vmm2pp g) p []
          len s.counters (s.appended ∙ ap (λ ps. packets v.vmm2pp g ++ ps) one)
          (foreign-region t s.after.vmm2pp (packets v.vmm2pp g) foreign)
          (same_address t s.after.vmm2pp p ∙ addressed-copy t p m n same for_us) in
      let (t', read) =
        received-payload (with_region t s.after.vmm2pp) len n p (load_bytes m 42 n)
          (length (packets v.vmm2pp g)) found (payload_len-copy t p m n same for_us)
          (payload-copy t p m n same for_us) space in
      (s.after, s.returns, s.notified_each, t', read)
