-- ===== src/PingPong/Write.antt =====
-- `custom_transport_seL4_write` on each of its paths.
use micro_ros_demos.Prelude.{
  ℕ, suc, ◌+◌, ◌^◌, ◌≤◌, ◌<◌, ◌≡◌, refl, ap, ◌∙◌, List, [], ◌∷◌, ◌++◌, some, replicate, arith,
  length,
}
use micro_ros_demos.Memory.{Mem, load_bytes}
use micro_ros_demos.Spsc.{block_at, spsc_push}
use micro_ros_demos.Spsc.Invariant.{Ghost, Counters, push-Counters}
use micro_ros_demos.Spsc.Waiting.{new_block_waits}
use micro_ros_demos.Channel.{put_block, done, waits}
use micro_ros_demos.Channel.Contents.{packets, packets-layout}
use micro_ros_demos.Channel.Produce.{Room, room, packets-put_block}
use micro_ros_demos.Net.{make_pkt, get_payload_len, ipproto_udp}
use micro_ros_demos.Net.Packet.{make_pkt_reads_back}
use micro_ros_demos.PingPong.{Transport, custom_transport_sel4_write, chan_pingpong}

-- What a successful write of `buf` does: one packet that holds `buf` joins those in `pp2vmm`, the
-- VMM is notified once, and nothing else changes.
pub record Wrote (t : Transport) (g : Ghost) (buf : List ℕ) (t' : Transport) : Type 0 where
  pub pkt : Mem
  pub after : Ghost
  pub counters : Counters t'.pp2vmm.queue after
  pub appended : packets t'.pp2vmm after ≡ packets t.pp2vmm g ++ (pkt ∷ [])
  pub payload_len : get_payload_len pkt ≡ some (length buf)
  pub payload : load_bytes pkt 42 (length buf) ≡ buf
  pub notified_once : t'.notified ≡ t.notified ++ (chan_pingpong ∷ [])
  pub other_channel : t'.vmm2pp ≡ t.vmm2pp

module _ (buf : List ℕ) (t : Transport) (g : Ghost) (k : Counters t.pp2vmm.queue g) where
  write_room :
      (small : length buf ≤ 1500)
      → t.tx_ip_hdr.protocol ≡ ipproto_udp
      → g.pushed < g.popped + 2 ^ t.pp2vmm.queue.log2_capacity
      → (t' : Transport) × (custom_transport_sel4_write (t.pp2vmm.queue.front ∷ []) buf t
          ≡ done (length buf, t'))
        × Wrote t g buf t'
  unfolding custom_transport_sel4_write spsc_push
  write_room small udp h =
      let back =
        make_pkt_reads_back (t.pp2vmm.block tx_buf) buf t.tx_eth_hdr t.tx_ip_hdr t.tx_udp_hdr udp
          (omega arith) in
      (
        t',
        ground (arith, r.returns),
        record {
          pkt = pkt;
          after = record r.seen { pushed = suc r.seen.pushed };
          counters = push-Counters r.next r.seen r.counters r.room_seen;
          appended =
              packets-layout (put_block t.pp2vmm tx_buf pkt) (record g { pushed = suc g.pushed })
                (spsc_push r.next) (record r.seen { pushed = suc r.seen.pushed })
                r.layout.same_begin r.layout.same_block_size r.layout.same_capacity r.same_popped
                (ap suc r.same_pushed)
              ∙ packets-put_block t.pp2vmm g pkt k (omega (arith, k)) h;
          payload_len = back.1;
          payload = back.4;
          notified_once = refl;
          other_channel = refl;
        },
      )
    where
      r : Room t.pp2vmm.queue g
      r = room t.pp2vmm.queue g k h

      tx_buf : ℕ
      tx_buf = block_at t.pp2vmm.queue t.pp2vmm.queue.producer_cached_back

      pkt : Mem
      pkt = make_pkt (t.pp2vmm.block tx_buf) buf t.tx_eth_hdr t.tx_ip_hdr t.tx_udp_hdr

      t' : Transport
      t' = record t {
        pp2vmm = put_block (record t.pp2vmm { queue = spsc_push r.next }) tx_buf pkt;
        notified = t.notified ++ (chan_pingpong ∷ []);
      }

  -- With UDP in its header template the write has three outcomes. More than 1500 bytes are refused
  -- with 0 and nothing changes. Else, while fewer packets than the capacity are pending, one load
  -- of `front` is enough and the bytes go out as one packet that reads back as they are. With as
  -- many pending as the capacity it waits, however often it loads `front`.
  pub custom_transport_write_lem :
      t.tx_ip_hdr.protocol ≡ ipproto_udp
      → ((seen : List ℕ) → 1500 < length buf → custom_transport_sel4_write seen buf t ≡ done (0, t))
        × (length buf ≤ 1500
            → g.pushed < g.popped + 2 ^ t.pp2vmm.queue.log2_capacity
            → (t' : Transport) × (custom_transport_sel4_write (t.pp2vmm.queue.front ∷ []) buf t
                ≡ done (length buf, t'))
              × Wrote t g buf t')
        × (length buf ≤ 1500
            → g.pushed ≡ g.popped + 2 ^ t.pp2vmm.queue.log2_capacity
            → (n : ℕ)
            → custom_transport_sel4_write (replicate n t.pp2vmm.queue.front) buf t ≡ waits)
  unfolding custom_transport_sel4_write
  custom_transport_write_lem udp = (
    λ seen big. ground arith,
    λ small h. write_room small udp h,
    λ small full n. ground (arith, new_block_waits t.pp2vmm.queue g k full n),
  )
