-- ===== src/Vmm.antt =====
-- rclc/ping_pong_sel4/vmm/src/vmm.c: the virtual machine monitor of the Linux guest. It passes
-- packets between the guest's network device and the two regions.
pub mod Boot
pub mod Booted
mod Rounds
mod Guest
mod Client
mod Reception
mod Delivery
pub mod Ready
mod Tests
mod ReceptionTests
use micro_ros_demos.Prelude.{
  ℕ, zero, suc, ◌+◌, Bool, true, false, List, [], ◌∷◌, ◌++◌, Option, some, none, ◌==◌, ◌&&◌,
  if◌then◌else◌, not, ltb, leb, ◌-◌, ◌*◌, map,
}
use micro_ros_demos.Memory.{Mem}
use micro_ros_demos.Spsc.{spsc_new_block, spsc_push, spsc_empty, spsc_front_block, spsc_pop}
use micro_ros_demos.Channel.{Channel, Outcome, done, waits, overruns, ◌>>=◌, put_block}
use micro_ros_demos.PingPong.{chan_pingpong, chan_ready}

abbrev pub pkt_size : ℕ
pkt_size = 2048

abbrev pub net_num_buffers : ℕ
net_num_buffers = 16

abbrev pub net_buf_size : ℕ
net_buf_size = 2048

-- The size of `rx_data` in `network_ctx_t`.
abbrev pub rx_data_size : ℕ
rx_data_size = net_num_buffers * net_buf_size

-- `net_buff_desc_t`
pub record NetBuff : Type 0 where
  pub io_or_offset : ℕ
  pub len : ℕ

-- The sDDF queue functions and `virtio_net_handle_rx`, which are not part of the repository, on the
-- state `N` of a queue pair. The first part of what `handle_rx` gives is the descriptors that
-- `virtio_net_handle_rx` takes out of the active queue and shows the guest's device. What enqueuing
-- returns is dropped by the code.
pub record NetLib (N : Type 0) : Type 0 where
  pub dequeue_free : N → Option NetBuff × N
  pub dequeue_active : N → Option NetBuff × N
  pub enqueue_free : N → NetBuff → N
  pub enqueue_active : N → NetBuff → N
  pub handle_rx : N → List NetBuff × N

-- What the guest's device is shown: a descriptor that `virtio_net_handle_rx` takes, and the memory
-- from its offset on at that time.
pub record Handed : Type 0 where
  pub buffer : NetBuff
  pub bytes : Mem

-- The globals of the VMM. `handed` logs what the calls of `virtio_net_handle_rx` show the guest's
-- device, and `notified` the calls of `microkit_notify`.
pub record Vmm (N : Type 0) : Type 0 where
  pub pp2vmm : Channel
  pub vmm2pp : Channel
  pub net_rx : N
  pub net_tx : N
  pub rx_data : Mem
  pub tx_data : Mem
  pub handed : List Handed
  pub notified : List ℕ
  pub ready_signal_sent : Bool

-- `memcpy` of `n` bytes from the start of `src` to offset `a` of `m`
abbrev pub copy : Mem → ℕ → Mem → ℕ → Mem
copy m a src n x = if leb a x && ltb x (a + n) then src (x - a) else m x

-- What the device is shown for a descriptor.
abbrev pub handed_over : Mem → NetBuff → Handed
handed_over rx_data b = record { buffer = b; bytes = λ x. rx_data (b.io_or_offset + x) }

module _ {N : Type 0} where
  -- `is_write` is what `fault_is_write` says of the fault.
  unfoldable pub ready_signal_handler : Bool → Vmm N → Bool × Vmm N
  ready_signal_handler is_write v =
      if is_write && not v.ready_signal_sent
      then (true, record v { ready_signal_sent = true; notified = v.notified ++ (chan_ready ∷ []) })
      else (true, v)

  module _ (lib : NetLib N) where
    -- One round of the loop: `seen` lists what the loads of `front` return.
    unfoldable pub process_tx_packet : List ℕ → NetBuff → Vmm N → Outcome (Vmm N)
    process_tx_packet seen buf v = elim (spsc_new_block seen v.vmm2pp.queue) [
      | none ↦ waits
      | some (new_block, q) ↦
          let pkt =
            copy (v.vmm2pp.block new_block) 0 (λ x. v.tx_data (buf.io_or_offset + x)) buf.len in
          if ltb pkt_size buf.len
          then overruns
          else done (record v {
            vmm2pp = put_block (record v.vmm2pp { queue = spsc_push q }) new_block pkt;
            net_tx = lib.enqueue_free v.net_tx buf;
            notified = v.notified ++ (chan_pingpong ∷ []);
          })
    ]

    -- Each entry of `rounds` is for one packet.
    unfoldable pub process_tx_pending : List (List ℕ) → Vmm N → Outcome (Vmm N)
    process_tx_pending [] v =
        let (buf, tx) = lib.dequeue_active v.net_tx in
        elim buf [ none ↦ done (record v { net_tx = tx }) | some b ↦ waits ]
    process_tx_pending (seen ∷ rounds) v =
        let (buf, tx) = lib.dequeue_active v.net_tx in
        elim buf [
          | none ↦ done (record v { net_tx = tx })
          | some b ↦ process_tx_packet seen b (record v { net_tx = tx }) >>= λ w.
              process_tx_pending rounds w
        ]

    -- With no free descriptor, `buf` is used without having been set. `seen` lists the loads of
    -- `back`.
    unfoldable pub send_pkt_to_guest : List ℕ → Vmm N → Outcome (Vmm N)
    send_pkt_to_guest seen v = elim (spsc_front_block seen v.pp2vmm.queue) [
      | none ↦ waits
      | some (pkt, q) ↦
          let (free, rx) = lib.dequeue_free v.net_rx in
          elim free [
            | none ↦ overruns
            | some b ↦
                let rx_data = copy v.rx_data b.io_or_offset (v.pp2vmm.block pkt) pkt_size in
                let buf : NetBuff = record { io_or_offset = b.io_or_offset; len = pkt_size } in
                let (taken, rx') = lib.handle_rx (lib.enqueue_active rx buf) in
                if ltb rx_data_size (b.io_or_offset + pkt_size)
                then overruns
                else done (record v {
                  net_rx = rx';
                  rx_data = rx_data;
                  handed = v.handed ++ map (handed_over rx_data) taken;
                  pp2vmm = record v.pp2vmm { queue = spsc_pop q };
                })
          ]
    ]

    -- `while (!spsc_empty(spsc_pp2vmm)) send_pkt_to_guest();` on fuel, with nothing pushed meanwhile.
    unfoldable pub send_pending : ℕ → Vmm N → Outcome (Vmm N)
    send_pending zero v = waits
    send_pending (suc fuel) v =
        let (empty, q) = spsc_empty v.pp2vmm.queue in
        let polled = record v { pp2vmm = record v.pp2vmm { queue = q } } in
        elim empty [
          | true ↦ done polled
          | false ↦ send_pkt_to_guest [] polled >>= λ w. send_pending fuel w
        ]

    unfoldable pub notified : ℕ → ℕ → Vmm N → Outcome (Vmm N)
    notified fuel ch v = if ch == chan_pingpong then send_pending fuel v else done v

    -- `handled` is what `fault_handle` returns, and the flag whether the guest goes on.
    unfoldable pub fault : Bool → List (List ℕ) → Vmm N → Outcome (Bool × Vmm N)
    fault handled rounds v =
        if handled then process_tx_pending rounds v >>= (λ w. done (true, w)) else done (false, v)
