-- ===== src/Net/Tests.antt =====
-- Packets on small inputs.
use micro_ros_demos.Prelude.{
  ℕ, ◌+◌, ◌-◌, ◌*◌, ◌/◌, ◌%◌, ◌^◌, ◌≡◌, ◌≢◌, refl, true, List, [], ◌∷◌, some, arith,
}
use micro_ros_demos.Memory.{Mem, blit, load_bytes, IsBytes}
use micro_ros_demos.Net.{
  put_pkt_hex, Mac, Ethhdr, Iphdr, Udphdr, add_words, fold_carries, fold_fuel, set_ip_chksum,
  make_pkt, is_udp, get_payload_len, get_payload, pkt_len, payload_at, htons, eth_p_ip, make_iphdr,
  make_udphdr,
}
use micro_ros_demos.Net.Checksum.{ones_sum, set_ip_chksum_lem, fold_carries_ends}
use micro_ros_demos.Net.Hex.{read_hex, put_pkt_hex_lem}
use micro_ros_demos.Net.Packet.{make_pkt_reads_back, make_pkt-bounds}

-- The header of a UDP packet of 115 bytes from 192.168.0.1 to 192.168.0.199.
abbrev header : Mem
header =
    blit (λ a. 0) 0
      (0x45 ∷ 0 ∷ 0 ∷ 0x73 ∷ 0 ∷ 0 ∷ 0x40 ∷ 0 ∷ 0x40 ∷ 0x11 ∷ 0 ∷ 0 ∷ 0xC0 ∷ 0xA8 ∷ 0 ∷ 1 ∷ 0xC0
        ∷ 0xA8 ∷ 0 ∷ 0xC7 ∷ [])

header-IsBytes : IsBytes header
header-IsBytes a = ground arith

header_checksum : load_bytes (set_ip_chksum header 0) 10 2 ≡ 0xB8 ∷ 0x61 ∷ []
unfolding set_ip_chksum add_words fold_carries
header_checksum = refl

set_ip_chksum_lem_example :
    (ones_sum (set_ip_chksum header 0) 0 (2 * (header 0 % 16)) ≡ 0xFFFF)
    × ((a : ℕ) → a ≢ 0 + 10 → a ≢ 0 + 11 → set_ip_chksum header 0 a ≡ header a)
set_ip_chksum_lem_example = set_ip_chksum_lem header 0 header-IsBytes (omega arith)

-- The largest uint32_t needs both rounds of the loop.
largest_sum_folds :
    (fold_carries (3 + 2) (2 ^ 32 - 1) ≡ fold_carries fold_fuel (2 ^ 32 - 1))
    × (fold_carries fold_fuel (2 ^ 32 - 1) / 2 ^ 16 ≡ 0)
largest_sum_folds = fold_carries_ends (2 ^ 32 - 1) 2 (omega arith)

abbrev mac : ℕ → Mac
mac n = record { b0 = 0x52; b1 = 0x54; b2 = 0; b3 = 0; b4 = 0; b5 = n }

abbrev eth : Ethhdr
eth = record { h_dest = mac 1; h_source = mac 2; h_proto = htons eth_p_ip }

abbrev ip : Iphdr
ip = make_iphdr 0x0100A8C0 0x0200A8C0

abbrev udp : Udphdr
udp = make_udphdr (record { uh_sport = 0; uh_dport = 0; uh_ulen = 77; uh_sum = 78 }) 8888 9999

abbrev three_bytes : List ℕ
three_bytes = 10 ∷ 20 ∷ 30 ∷ []

make_pkt_reads_back_example :
    let pkt = make_pkt (λ a. 0) three_bytes eth ip udp in
    (is_udp pkt ≡ true)
    × (get_payload_len pkt ≡ some 3)
    × (pkt_len pkt ≡ some (42 + 3))
    × (get_payload pkt ≡ some payload_at)
    × (load_bytes pkt payload_at 3 ≡ three_bytes)
unfolding make_iphdr
make_pkt_reads_back_example = make_pkt_reads_back (λ a. 0) three_bytes eth ip udp refl (omega arith)

byte_behind_packet : make_pkt (λ a. a) three_bytes eth ip udp 45 ≡ 45
byte_behind_packet = make_pkt-bounds (λ a. a) three_bytes eth ip udp 45 (omega arith)

-- "0a ff "
two_bytes_dumped : (put_pkt_hex (λ x. 1) (10 ∷ 255 ∷ []) 0).0 ≡ 6
unfolding put_pkt_hex
two_bytes_dumped = refl

dump_reads_back :
    read_hex (load_bytes (put_pkt_hex (λ x. 1) (10 ∷ 255 ∷ []) 0).1 0 6) ≡ 10 ∷ 255 ∷ []
dump_reads_back = (put_pkt_hex_lem (λ x. 1) (10 ∷ 255 ∷ []) (omega arith)).1
