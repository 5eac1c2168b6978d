-- ===== src/PingPong.antt =====
-- rclc/ping_pong_sel4/ping_pong_component.c: the micro-ROS client in its protection domain. It
-- sends UDP packets through the region `pp2vmm` and receives them through `vmm2pp`.
pub mod Write
pub mod Read
pub mod Address
pub mod Handler
pub mod Ready
pub mod Numbered
pub mod Numbers
mod Tests
pub mod HandlerTests
use micro_ros_demos.Prelude.{
  ℕ, Bool, true, false, List, [], ◌∷◌, ◌++◌, Option, some, none, ◌==◌, if◌then◌else◌, ltb, length,
}
use micro_ros_demos.Memory.{Mem, load16, load32, load_bytes}
use micro_ros_demos.Spsc.{SpscQueue, spsc_new_block, spsc_push, spsc_front_block, spsc_pop}
use micro_ros_demos.Channel.{Channel, Outcome, done, waits, aborts, ◌>>=◌, put_block}
use micro_ros_demos.Net.{
  Ethhdr, Iphdr, Udphdr, make_pkt, get_payload, get_payload_len, mac_matches, htons, eth_p_ip,
  ipproto_udp,
}

abbrev pub chan_pingpong : ℕ
chan_pingpong = 1

abbrev pub chan_ready : ℕ
chan_ready = 2

-- The globals that the transport uses. `notified` logs the calls of `microkit_notify`.
pub record Transport : Type 0 where
  pub pp2vmm : Channel
  pub vmm2pp : Channel
  pub tx_eth_hdr : Ethhdr
  pub tx_ip_hdr : Iphdr
  pub tx_udp_hdr : Udphdr
  pub notified : List ℕ

-- The bytes of `buf` are the argument, its length is `len`. `seen` lists what the loads of `front`
-- in `spsc_new_block` return.
unfoldable pub custom_transport_sel4_write : List ℕ → List ℕ → Transport → Outcome (ℕ × Transport)
custom_transport_sel4_write seen buf t =
    if ltb 1500 (length buf) then done (0, t) else elim (spsc_new_block seen t.pp2vmm.queue) [
      | none ↦ waits
      | some (tx_buf, q) ↦
          let pkt = make_pkt (t.pp2vmm.block tx_buf) buf t.tx_eth_hdr t.tx_ip_hdr t.tx_udp_hdr in
          done (
            length buf,
            record t {
              pp2vmm = put_block (record t.pp2vmm { queue = spsc_push q }) tx_buf pkt;
              notified = t.notified ++ (chan_pingpong ∷ []);
            },
          )
    ]

unfoldable pub is_addressed_to_me : Transport → Mem → Bool
is_addressed_to_me t pkt =
    if mac_matches pkt 0 t.tx_eth_hdr.h_source
    then if load16 pkt 12 == htons eth_p_ip
      then if load32 pkt 30 == t.tx_ip_hdr.saddr
        then if pkt 23 == ipproto_udp then load16 pkt 36 == t.tx_udp_hdr.uh_sport else false
        else false
      else false
    else false

-- The loop of `custom_transport_seL4_read`, which drops packets for others. Each entry of `rounds`
-- lists what the loads of `back` in one call of `spsc_front_block` return.
unfoldable pub next_packet : Transport → List (List ℕ) → SpscQueue → Outcome (ℕ × SpscQueue)
next_packet t [] q = waits
next_packet t (seen ∷ rounds) q = elim (spsc_front_block seen q) [
  | none ↦ waits
  | some (rx_pkt, q') ↦ elim (is_addressed_to_me t (t.vmm2pp.block rx_pkt)) [
    | true ↦ done (rx_pkt, q')
    | false ↦ next_packet t rounds (spsc_pop q')
  ]
]

abbrev pub assert_some {ℓ} : {A : Type ℓ} → Option A → Outcome A
assert_some none = aborts
assert_some (some a) = done a

-- What is returned, and the bytes that are copied to `buf`.
unfoldable pub custom_transport_sel4_read :
    List (List ℕ) → ℕ → Transport → Outcome (ℕ × List ℕ × Transport)
custom_transport_sel4_read rounds len t = do
  (rx_pkt, q) ← next_packet t rounds t.vmm2pp.queue
  payload ← assert_some (get_payload (t.vmm2pp.block rx_pkt))
  payload_len ← assert_some (get_payload_len (t.vmm2pp.block rx_pkt))
  let popped = record t { vmm2pp = record t.vmm2pp { queue = spsc_pop q } }
  if ltb len payload_len
      then done (0, [], popped)
      else done (payload_len, load_bytes (t.vmm2pp.block rx_pkt) payload payload_len, popped)
