-- ===== src/Vmm/Delivery.antt =====
-- A packet on its way from a write of the client to the guest's device.
use micro_ros_demos.Prelude.{
  ℕ, ◌+◌, ◌-◌, ◌^◌, ◌≤◌, ◌<◌, ◌≡◌, List, [], ◌∷◌, ◌++◌, arith, length, length-append,
}
use micro_ros_demos.Memory.{Mem, load_bytes}
use micro_ros_demos.Spsc.Invariant.{Ghost, Counters}
use micro_ros_demos.Spsc.Fifo.{length-window}
use micro_ros_demos.Channel.{done}
use micro_ros_demos.Channel.Contents.{packets, blocks}
use micro_ros_demos.Net.{ipproto_udp}
use micro_ros_demos.PingPong.{Transport, custom_transport_sel4_write, chan_pingpong}
use micro_ros_demos.PingPong.Write.{custom_transport_write_lem}
use micro_ros_demos.Vmm.{NetBuff, NetLib, Vmm, notified}
use micro_ros_demos.Vmm.Rounds.{ReceiveQueue}
use micro_ros_demos.Vmm.Guest.{Receives, Forwarded, notified_lem}

module _ {N : Type 0} (lib : NetLib N) (free active : N → List NetBuff) (room : N → ℕ)
    (laws : ReceiveQueue lib free active room) where
  -- The client writes at most 1500 bytes over UDP into a region with room, and the VMM, with at least
  -- one free receive buffer, none active and all of them inside the data area, is notified. With more
  -- rounds than there are packets, the guest's device takes from the active queue the packets that
  -- were pending before, in order, and behind them one whose UDP payload is the bytes that were
  -- written, under the laws of `ReceiveQueue` for the queue pair and the device.
  pub delivery_lem :
      (buf : List ℕ) (t : Transport) (g : Ghost) (fs : List NetBuff) (v : Vmm N) (fuel : ℕ)
      → Receives free active fs v.net_rx
      → 0 < length fs
      → Counters t.pp2vmm.queue g
      → t.tx_ip_hdr.protocol ≡ ipproto_udp
      → length buf ≤ 1500
      → g.pushed < g.popped + 2 ^ t.pp2vmm.queue.log2_capacity
      → g.pushed - g.popped + 1 < fuel
      → (t' : Transport) × (custom_transport_sel4_write (t.pp2vmm.queue.front ∷ []) buf t
          ≡ done (length buf, t'))
        × (pkt : Mem) × (load_bytes pkt 42 (length buf) ≡ buf)
        × Forwarded free active
            (record v { pp2vmm = t'.pp2vmm })
            (length fs)
            (packets t.pp2vmm g ++ (pkt ∷ []))
            (notified lib fuel chan_pingpong (record v { pp2vmm = t'.pp2vmm }))
  delivery_lem buf t g fs v fuel r some_free k udp small has_room enough =
      let (t', written, w) = (custom_transport_write_lem buf t g k udp).1 small has_room in
      let before : length (packets t.pp2vmm g) ≡ g.pushed - g.popped =
        length-window (blocks t.pp2vmm) (2 ^ t.pp2vmm.queue.log2_capacity) g.popped
          (g.pushed - g.popped) in
      let count : length (packets t.pp2vmm g ++ (w.pkt ∷ [])) < fuel =
        omega (arith, before, length-append (packets t.pp2vmm g) (w.pkt ∷ [])) in
      (
        t',
        written,
        w.pkt,
        w.payload,
        notified_lem lib free active room laws (packets t.pp2vmm g ++ (w.pkt ∷ [])) fuel fs
            (record v { pp2vmm = t'.pp2vmm }) w.after r some_free w.counters w.appended count,
      )
