-- ===== src/Vmm/Rounds.antt =====
-- One round of the loop in which the VMM shows packets to the guest's device.
use mathlib.Core.Path.{ap₂}
use micro_ros_demos.Prelude.{
  ℕ, suc, ◌+◌, ◌<◌, ◌≡◌, refl, true, false, List, [], ◌∷◌, ◌++◌, some, none, arith, ◌≤◌, ◌∙◌, ap,
  length, ltb,
}
use micro_ros_demos.Memory.{Mem}
use micro_ros_demos.Spsc.{
  SpscQueue, spsc_empty, looks_empty, reload_back, spsc_front_block, block_at, spsc_pop,
}
use micro_ros_demos.Spsc.Invariant.{Ghost, Counters, reload_back-Counters}
use micro_ros_demos.Spsc.Waiting.{sees_block, sees_none}
use micro_ros_demos.Channel.{done, overruns}
use micro_ros_demos.Vmm.{
  NetBuff, NetLib, Handed, Vmm, pkt_size, rx_data_size, handed_over, copy, send_pkt_to_guest,
  send_pending,
}

module _ (q : SpscQueue) (g : Ghost) (k : Counters q g) where
  polls_block : g.popped < g.pushed → (spsc_empty q).0 ≡ false
  unfolding spsc_empty looks_empty reload_back
  polls_block h = sees_block q g k h

  polls_none : g.pushed ≡ g.popped → (spsc_empty q).0 ≡ true
  unfolding spsc_empty looks_empty reload_back
  polls_none h =
      (sees_none (reload_back q q.back) (record g { seen_pushed = g.pushed })
        (reload_back-Counters q g k) h).0

spsc_empty-reloads : (q : SpscQueue) → (spsc_empty q).1 ≡ reload_back q q.back
unfolding spsc_empty reload_back
spsc_empty-reloads q = refl

-- What sDDF documents of a queue pair and libvmm of `virtio_net_handle_rx`: `free` and `active` list
-- the descriptors of the two queues, oldest first, and `room` says how many more the free one takes.
-- An empty active queue takes a descriptor. The device takes all active descriptors, in order, and
-- frees them, if there is room.
pub record ReceiveQueue {N : Type 0} (lib : NetLib N) (free active : N → List NetBuff)
    (room : N → ℕ) : Type 0 where
  pub dequeue_none : (n : N) → free n ≡ [] → (lib.dequeue_free n).0 ≡ none
  pub dequeue_some :
      (n : N) (b : NetBuff) (bs : List NetBuff)
      → free n ≡ b ∷ bs
      → ((lib.dequeue_free n).0 ≡ some b)
        × (free (lib.dequeue_free n).1 ≡ bs)
        × (active (lib.dequeue_free n).1 ≡ active n)
        × (room (lib.dequeue_free n).1 ≡ suc (room n))
  pub enqueue_active_active :
      (n : N) (b : NetBuff) → active n ≡ [] → active (lib.enqueue_active n b) ≡ b ∷ []
  pub enqueue_active_free : (n : N) (b : NetBuff) → free (lib.enqueue_active n b) ≡ free n
  pub enqueue_active_room : (n : N) (b : NetBuff) → room (lib.enqueue_active n b) ≡ room n
  pub handle_rx_taken : (n : N) → (lib.handle_rx n).0 ≡ active n
  pub handle_rx_active : (n : N) → active (lib.handle_rx n).1 ≡ []
  pub handle_rx_free :
      (n : N) → length (active n) ≤ room n → free (lib.handle_rx n).1 ≡ free n ++ active n

abbrev pub polled : {N : Type 0} → Vmm N → Vmm N
polled v = record v {
  pp2vmm = record v.pp2vmm { queue = reload_back v.pp2vmm.queue v.pp2vmm.queue.back };
}

abbrev pub front_packet : {N : Type 0} → Vmm N → Mem
front_packet v = v.pp2vmm.block (block_at v.pp2vmm.queue v.pp2vmm.queue.consumer_cached_front)

-- The descriptor of a whole packet in the buffer of `b`.
abbrev pub filled : NetBuff → NetBuff
filled b = record { io_or_offset = b.io_or_offset; len = pkt_size }

abbrev received : {N : Type 0} → NetBuff → Vmm N → Mem
received b v = copy v.rx_data b.io_or_offset (front_packet v) pkt_size

abbrev pub shown : {N : Type 0} → NetBuff → Vmm N → Handed
shown b v = handed_over (received b v) (filled b)

pub shown-bytes :
    {N : Type 0} (b : NetBuff) (v : Vmm N) (x : ℕ)
    → x < pkt_size
    → (shown b v).bytes x ≡ front_packet v x
shown-bytes b v x h = ground arith

module _ {N : Type 0} (lib : NetLib N) (free active : N → List NetBuff) (room : N → ℕ)
    (laws : ReceiveQueue lib free active room) where
  -- The queue pair when the device is called, and after that.
  abbrev queued : NetBuff → N → N
  queued b n = lib.enqueue_active (lib.dequeue_free n).1 (filled b)

  -- The state after `send_pkt_to_guest` with the free descriptor `b`.
  abbrev pub sent : NetBuff → Vmm N → Vmm N
  sent b v = record v {
    net_rx = (lib.handle_rx (queued b v.net_rx)).1;
    rx_data = received b v;
    handed = v.handed ++ (shown b v ∷ []);
    pp2vmm = record v.pp2vmm { queue = spsc_pop v.pp2vmm.queue };
  }

  queued-active :
      (b : NetBuff) (bs : List NetBuff) (n : N)
      → free n ≡ b ∷ bs
      → active n ≡ []
      → active (queued b n) ≡ filled b ∷ []
  queued-active b bs n e a =
      laws.enqueue_active_active (lib.dequeue_free n).1 (filled b)
        ((laws.dequeue_some n b bs e).2 ∙ a)

  -- The buffer is free again.
  pub sent-free :
      (b : NetBuff) (bs : List NetBuff) (v : Vmm N)
      → free v.net_rx ≡ b ∷ bs
      → active v.net_rx ≡ []
      → free (sent b v).net_rx ≡ bs ++ (filled b ∷ [])
  sent-free b bs v e a =
      let d = laws.dequeue_some v.net_rx b bs e in
      let rx : N = (lib.dequeue_free v.net_rx).1 in
      let q = queued-active b bs v.net_rx e a in
      laws.handle_rx_free (queued b v.net_rx)
        (omega (arith, ap length q, laws.enqueue_active_room rx (filled b), d.3))
      ∙ ap₂ (◌++◌) (laws.enqueue_active_free rx (filled b) ∙ d.1) q

  front_block_now :
      (q : SpscQueue)
      → looks_empty q ≡ false
      → spsc_front_block [] q ≡ some (block_at q q.consumer_cached_front, q)
  unfolding spsc_front_block
  front_block_now q h = rw h refl

  send_pkt-sent :
      (b : NetBuff) (bs : List NetBuff) (v : Vmm N)
      → free v.net_rx ≡ b ∷ bs
      → active v.net_rx ≡ []
      → b.io_or_offset + pkt_size ≤ rx_data_size
      → looks_empty v.pp2vmm.queue ≡ false
      → send_pkt_to_guest lib [] v ≡ done (sent b v)
  unfolding send_pkt_to_guest
  send_pkt-sent b bs v e a inside h =
      let small : ltb rx_data_size (b.io_or_offset + pkt_size) ≡ false = ground arith in
      rw
        (
          front_block_now v.pp2vmm.queue h,
          send_pkt_to_guest,
          (laws.dequeue_some v.net_rx b bs e).0,
          send_pkt_to_guest,
          small,
          laws.handle_rx_taken (queued b v.net_rx),
          queued-active b bs v.net_rx e a,
        )
        refl

  send_pkt-unset :
      (v : Vmm N)
      → free v.net_rx ≡ []
      → looks_empty v.pp2vmm.queue ≡ false
      → send_pkt_to_guest lib [] v ≡ overruns
  unfolding send_pkt_to_guest
  send_pkt-unset v e h =
      rw (front_block_now v.pp2vmm.queue h, send_pkt_to_guest, laws.dequeue_none v.net_rx e) refl

  pub send_pending-round :
      (fuel : ℕ) (b : NetBuff) (bs : List NetBuff) (v : Vmm N) (g : Ghost)
      → free v.net_rx ≡ b ∷ bs
      → active v.net_rx ≡ []
      → b.io_or_offset + pkt_size ≤ rx_data_size
      → Counters v.pp2vmm.queue g
      → g.popped < g.pushed
      → send_pending lib (suc fuel) v ≡ send_pending lib fuel (sent b (polled v))
  unfolding send_pending
  send_pending-round fuel b bs v g e a inside k h =
      rw
        (
          polls_block v.pp2vmm.queue g k h,
          send_pending,
          spsc_empty-reloads v.pp2vmm.queue,
          send_pkt-sent b bs (polled v) e a inside (sees_block v.pp2vmm.queue g k h),
        )
        refl

  -- With a packet pending and no free descriptor, the loop uses one that is not set.
  send_pending-unset :
      (fuel : ℕ) (v : Vmm N) (g : Ghost)
      → free v.net_rx ≡ []
      → Counters v.pp2vmm.queue g
      → g.popped < g.pushed
      → send_pending lib (suc fuel) v ≡ overruns
  unfolding send_pending
  send_pending-unset fuel v g e k h =
      rw
        (
          polls_block v.pp2vmm.queue g k h,
          send_pending,
          spsc_empty-reloads v.pp2vmm.queue,
          send_pkt-unset (polled v) e (sees_block v.pp2vmm.queue g k h),
        )
        refl

  pub send_pending-end :
      (fuel : ℕ) (v : Vmm N) (g : Ghost)
      → Counters v.pp2vmm.queue g
      → g.pushed ≡ g.popped
      → send_pending lib (suc fuel) v ≡ done (polled v)
  unfolding send_pending
  send_pending-end fuel v g k h =
      rw (polls_none v.pp2vmm.queue g k h, send_pending, spsc_empty-reloads v.pp2vmm.queue) refl
