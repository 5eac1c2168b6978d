-- ===== src/Net.antt =====
-- rclc/ping_pong_sel4/util/networking.h: UDP packets in a block of memory. The structs of the
-- system headers are laid out as on the wire: 14 bytes of Ethernet, 20 of IP and 8 of UDP header.
pub mod Checksum
pub mod Packet
mod Hex
mod Tests
use micro_ros_demos.Prelude.{
  ℕ, zero, suc, ◌+◌, ◌-◌, ◌*◌, ◌/◌, ◌%◌, ◌^◌, Bool, List, [], ◌∷◌, ◌++◌, Option, ltb, some, none,
  ◌==◌, ◌&&◌, if◌then◌else◌, length,
}
use micro_ros_demos.Memory.{Mem, store, load16, store16, store32, blit}

pub record Mac : Type 0 where
  pub b0 : ℕ
  pub b1 : ℕ
  pub b2 : ℕ
  pub b3 : ℕ
  pub b4 : ℕ
  pub b5 : ℕ

-- A field of two or four bytes holds what a load of it gives.
pub record Ethhdr : Type 0 where
  pub h_dest : Mac
  pub h_source : Mac
  pub h_proto : ℕ

pub record Iphdr : Type 0 where
  pub version : ℕ
  pub ihl : ℕ
  pub tos : ℕ
  pub tot_len : ℕ
  pub id : ℕ
  pub frag_off : ℕ
  pub ttl : ℕ
  pub protocol : ℕ
  pub check : ℕ
  pub saddr : ℕ
  pub daddr : ℕ

pub record Udphdr : Type 0 where
  pub uh_sport : ℕ
  pub uh_dport : ℕ
  pub uh_ulen : ℕ
  pub uh_sum : ℕ

-- `sizeof` of the three, and where each starts in a packet
abbrev pub ip_at : ℕ
ip_at = 14

abbrev pub udp_at : ℕ
udp_at = 34

abbrev pub payload_at : ℕ
payload_at = 42

abbrev pub eth_p_ip : ℕ
eth_p_ip = 0x0800

abbrev pub ipproto_udp : ℕ
ipproto_udp = 17

-- Both swap the two bytes of a uint16_t.
abbrev pub htons : ℕ → ℕ
htons x = x % 256 * 256 + x / 256 % 256

abbrev pub ntohs : ℕ → ℕ
ntohs x = htons x

abbrev pub store_mac : Mem → ℕ → Mac → Mem
store_mac m a h =
    store
      (store (store (store (store (store m a h.b0) (a + 1) h.b1) (a + 2) h.b2) (a + 3) h.b3) (a + 4)
        h.b4)
      (a + 5) h.b5

-- `memcmp(p, mac, 6) == 0`
abbrev pub mac_matches : Mem → ℕ → Mac → Bool
mac_matches m a h =
    m a == h.b0
    && m (a + 1) == h.b1
    && m (a + 2) == h.b2
    && m (a + 3) == h.b3
    && m (a + 4) == h.b4
    && m (a + 5) == h.b5

-- `*(ethhdr *)p = h` and so on
abbrev pub store_ethhdr : Mem → ℕ → Ethhdr → Mem
store_ethhdr m a h =
    store16 (store_mac (store_mac m a h.h_dest) (a + 6) h.h_source) (a + 12) h.h_proto

abbrev pub store_iphdr : Mem → ℕ → Iphdr → Mem
store_iphdr m a h =
    let m1 =
      store16 (store (store m a (h.ihl % 16 + 16 * (h.version % 16))) (a + 1) h.tos) (a + 2)
        h.tot_len in
    let m2 = store16 (store16 m1 (a + 4) h.id) (a + 6) h.frag_off in
    let m3 = store16 (store (store m2 (a + 8) h.ttl) (a + 9) h.protocol) (a + 10) h.check in
    store32 (store32 m3 (a + 12) h.saddr) (a + 16) h.daddr

abbrev pub store_udphdr : Mem → ℕ → Udphdr → Mem
store_udphdr m a h =
    store16 (store16 (store16 (store16 m a h.uh_sport) (a + 2) h.uh_dport) (a + 4) h.uh_ulen)
      (a + 6) h.uh_sum

-- `for (i = 0; i < numBytes / 2; i++) sum += buf[i];` with `rounds` rounds left
pub add_words : Mem → ℕ → ℕ → ℕ → ℕ
add_words m p zero sum = sum
add_words m p (suc rounds) sum = add_words m (p + 2) rounds ((sum + load16 m p) % 2 ^ 32)

-- `while (sum >> 16) sum = (sum & 0xFFFF) + (sum >> 16);` on fuel. A uint32_t needs three rounds.
pub fold_carries : ℕ → ℕ → ℕ
fold_carries zero sum = sum
fold_carries (suc fuel) sum =
    let rest = fold_carries fuel (sum % 2 ^ 16 + sum / 2 ^ 16) in
    if sum / 2 ^ 16 == 0 then sum else rest

abbrev pub fold_fuel : ℕ
fold_fuel = 3

unfoldable pub set_ip_chksum : Mem → ℕ → Mem
set_ip_chksum m ip =
    let cleared = store16 m (ip + 10) 0 in
    let sum = add_words cleared ip (cleared ip % 16 * 4 / 2) 0 in
    store16 cleared (ip + 10) ((2 ^ 32 - 1 - fold_carries fold_fuel sum) % 2 ^ 16)

-- `make_pkt` in the order of its writes: the three headers, the payload and the total length, and
-- then the rest. Its argument `outBufLen` is not read.
unfoldable pub headers : Mem → Ethhdr → Iphdr → Udphdr → Mem
headers m eth ip udp = store_udphdr (store_iphdr (store_ethhdr m 0 eth) ip_at ip) udp_at udp

unfoldable pub with_headers : Mem → List ℕ → Ethhdr → Iphdr → Udphdr → Mem
with_headers m payload eth ip udp =
    store16 (blit (headers m eth ip udp) payload_at payload) (ip_at + 2)
      (htons (20 + 8 + length payload))

unfoldable pub make_pkt : Mem → List ℕ → Ethhdr → Iphdr → Udphdr → Mem
make_pkt m payload eth ip udp =
    let m' = set_ip_chksum (with_headers m payload eth ip udp) ip_at in
    store16 (store16 m' (udp_at + 4) (htons (8 + length payload))) (udp_at + 6) 0

-- `inet_addr` of the two texts is taken as an argument.
unfoldable pub make_iphdr : ℕ → ℕ → Iphdr
make_iphdr src_ip dst_ip = record {
  version = 4;
  ihl = 5;
  tos = 0;
  tot_len = 0;
  id = htons 54321;
  frag_off = 0;
  ttl = 64;
  protocol = ipproto_udp;
  check = 0;
  saddr = src_ip;
  daddr = dst_ip;
}

-- `uh_ulen` and `uh_sum` are left as they are found on the stack.
unfoldable pub make_udphdr : Udphdr → ℕ → ℕ → Udphdr
make_udphdr found src_port dst_port = record found {
  uh_sport = htons src_port;
  uh_dport = htons dst_port;
}

-- `sscanf` gives how many of the six bytes it read, and the bytes; a failed `assert` is `none`.
unfoldable pub parse_mac : ℕ × Mac → Option Mac
parse_mac (ret, mac) = if ret == 6 then some mac else none

unfoldable pub make_ethhdr : ℕ × Mac → ℕ × Mac → Option Ethhdr
make_ethhdr src dst = elim (parse_mac dst) [
  | none ↦ none
  | some d ↦ elim (parse_mac src) [
    | none ↦ none
    | some s ↦ some (record { h_dest = d; h_source = s; h_proto = htons eth_p_ip })
  ]
]

unfoldable pub is_udp : Mem → Bool
is_udp pkt = pkt (ip_at + 9) == ipproto_udp

-- `sizeof(udpHdr)` is the size of a pointer: 8, as that of the header is. `size_t` wraps.
unfoldable pub get_payload_len : Mem → Option ℕ
get_payload_len pkt =
    if is_udp pkt then some ((ntohs (load16 pkt (udp_at + 4)) + 2 ^ 64 - 8) % 2 ^ 64) else none

unfoldable pub pkt_len : Mem → Option ℕ
pkt_len pkt = elim (get_payload_len pkt) [
  | none ↦ none
  | some n ↦ some ((14 + 20 + 8 + n) % 2 ^ 64)
]

-- the offset of the payload in the packet
unfoldable pub get_payload : Mem → Option ℕ
get_payload pkt = if is_udp pkt then some payload_at else none

-- What `sprintf` makes of "%02x " and a byte.
abbrev pub hex_digit : ℕ → ℕ
hex_digit d = if ltb d 10 then b'0' + d else b'a' + (d - 10)

abbrev pub byte_text : ℕ → List ℕ
byte_text b = hex_digit (b / 16 % 16) ∷ hex_digit (b % 16) ∷ b' ' ∷ []

-- The loop from `bytesPrinted` on, over the bytes that are left. The output starts at offset 0 of
-- its own memory, and each `sprintf` ends with a NUL.
unfoldable pub put_pkt_hex : Mem → List ℕ → ℕ → ℕ × Mem
put_pkt_hex out [] printed = (printed, out)
put_pkt_hex out (b ∷ pkt) printed =
    put_pkt_hex (blit out printed (byte_text b ++ (0 ∷ []))) pkt (printed + 3)
