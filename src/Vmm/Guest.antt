-- ===== src/Vmm/Guest.antt =====
-- Packets from the client to the guest.
use micro_ros_demos.Spsc.Fifo.{length-window}
use mathlib.Core.List.{append_assoc, append-nil, head-eq_of_cons-eq, tail-eq_of_cons-eq}
use micro_ros_demos.Prelude.{
  ℕ, zero, suc, ◌+◌, ◌≤◌, length-append, ◌-◌, ◌^◌, ◌<◌, ◌≡◌, refl, ap, sym, ◌∙◌, List, [], ◌∷◌,
  ◌++◌, arith, length,
}
use micro_ros_demos.Memory.{Mem}
use micro_ros_demos.Spsc.{reload_back, block_at, spsc_pop}
use micro_ros_demos.Spsc.Invariant.{Ghost, Counters, reload_back-Counters, pop-Counters}
use micro_ros_demos.PingPong.{chan_pingpong}
use micro_ros_demos.Channel.{Outcome, done}
use micro_ros_demos.Channel.Contents.{packets, blocks, packets-front, packets-layout}
use micro_ros_demos.Vmm.{
  NetBuff, NetLib, Handed, Vmm, pkt_size, rx_data_size, send_pending, notified,
}
use micro_ros_demos.Vmm.Rounds.{
  ReceiveQueue, filled, sent-free, polled, sent, shown, front_packet, shown-bytes,
  send_pending-round, send_pending-end,
}

-- The guest's device is shown these packets, in their order, each in a buffer of its own call.
pub data Carries : List Handed → List Mem → Type 0 where
  nil : Carries [] []
  cons :
      {h : Handed} {hs : List Handed} {p : Mem} {ps : List Mem}
      → h.buffer.len ≡ pkt_size
      → ((x : ℕ) → x < pkt_size → h.bytes x ≡ p x)
      → Carries hs ps
      → Carries (h ∷ hs) (p ∷ ps)

-- Every descriptor leaves room for a packet in the data area.
abbrev pub AllInside : List NetBuff → Type 0
AllInside [] = Unit {0}
AllInside (b ∷ bs) = (b.io_or_offset + pkt_size ≤ rx_data_size) × AllInside bs

AllInside-last :
    (bs : List NetBuff) (b : NetBuff)
    → AllInside bs
    → b.io_or_offset + pkt_size ≤ rx_data_size
    → AllInside (bs ++ (filled b ∷ []))
AllInside-last [] b i h = (h, tt)
AllInside-last (c ∷ bs) b (j, i) h = (j, AllInside-last bs b i h)

-- The descriptors `fs` are free, none is active, and all have room for a packet.
pub record Receives {N : Type 0} (free active : N → List NetBuff) (fs : List NetBuff) (n : N)
    : Type 0 where
  pub all_free : free n ≡ fs
  pub none_active : active n ≡ []
  pub inside : AllInside fs

-- The state in which the loop ends when `ps` were pending: they have been shown to the guest's
-- device, one for one, the region is empty, as many descriptors are free as before, and nothing else
-- of the VMM's outputs has changed.
pub record Forwarded {N : Type 0} (free active : N → List NetBuff) (v : Vmm N) (count : ℕ)
    (ps : List Mem) (r : Outcome (Vmm N)) : Type 0 where
  pub after : Vmm N
  pub seen : Ghost
  pub new : List Handed
  pub returns : r ≡ done after
  pub carries : Carries new ps
  pub handed_after : after.handed ≡ v.handed ++ new
  pub counters : Counters after.pp2vmm.queue seen
  pub emptied : packets after.pp2vmm seen ≡ []
  pub left : List NetBuff
  pub left_count : length left ≡ count
  pub receives : Receives free active left after.net_rx
  pub same_vmm2pp : after.vmm2pp ≡ v.vmm2pp
  pub same_notified : after.notified ≡ v.notified

module _ {N : Type 0} (lib : NetLib N) (free active : N → List NetBuff) (room : N → ℕ)
    (laws : ReceiveQueue lib free active room) where
  abbrev popped_one : Ghost → Ghost
  popped_one g = record g { seen_pushed = g.pushed; popped = suc g.popped }

  pending_count :
      (v : Vmm N) (g : Ghost) (ps : List Mem)
      → packets v.pp2vmm g ≡ ps
      → g.pushed - g.popped ≡ length ps
  pending_count v g ps e =
      sym (
        length-window (blocks v.pp2vmm) (2 ^ v.pp2vmm.queue.log2_capacity) g.popped
          (g.pushed - g.popped))
      ∙ ap length e

  sent-Counters :
      (b : NetBuff) (v : Vmm N) (g : Ghost)
      → Counters v.pp2vmm.queue g
      → g.popped < g.pushed
      → Counters (sent lib free active room laws b (polled v)).pp2vmm.queue (popped_one g)
  sent-Counters b v g k h =
      pop-Counters (reload_back v.pp2vmm.queue v.pp2vmm.queue.back)
        (record g { seen_pushed = g.pushed }) (reload_back-Counters v.pp2vmm.queue g k) h

  sent-packets :
      (b : NetBuff) (v : Vmm N) (g : Ghost) (p : Mem) (ps : List Mem)
      → Counters v.pp2vmm.queue g
      → g.popped < g.pushed
      → packets v.pp2vmm g ≡ p ∷ ps
      → (front_packet (polled v) ≡ p)
        × (packets (sent lib free active room laws b (polled v)).pp2vmm (popped_one g) ≡ ps)
  unfolding spsc_pop reload_back block_at
  sent-packets b v g p ps k h e =
      let both = sym (packets-front v.pp2vmm g k h) ∙ e in
      (
        head-eq_of_cons-eq both,
        packets-layout v.pp2vmm (record g { popped = suc g.popped })
              (spsc_pop (reload_back v.pp2vmm.queue v.pp2vmm.queue.back)) (popped_one g) refl refl
              refl refl refl
            ∙ tail-eq_of_cons-eq both,
      )

  sent-Receives :
      (b : NetBuff) (bs : List NetBuff) (v : Vmm N)
      → Receives free active (b ∷ bs) v.net_rx
      → Receives free active
          (bs ++ (filled b ∷ []))
          (sent lib free active room laws b (polled v)).net_rx
  sent-Receives b bs v r = record {
    all_free = sent-free lib free active room laws b bs (polled v) r.all_free r.none_active;
    none_active = laws.handle_rx_active _;
    inside = AllInside-last bs b r.inside.1 r.inside.0;
  }

  send_pending-Forwarded :
      (ps : List Mem) (fuel : ℕ) (fs : List NetBuff) (v : Vmm N) (g : Ghost)
      → Receives free active fs v.net_rx
      → 0 < length fs
      → Counters v.pp2vmm.queue g
      → packets v.pp2vmm g ≡ ps
      → length ps < fuel
      → Forwarded free active v (length fs) ps (send_pending lib fuel v)
  unfolding reload_back
  send_pending-Forwarded ps zero fs v g r some_free k e h = absurd (omega arith)
  send_pending-Forwarded [] (suc fuel) fs v g r some_free k e h = record {
    after = polled v;
    seen = record g { seen_pushed = g.pushed };
    new = [];
    returns =
        send_pending-end lib free active room laws fuel v g k
          (omega (arith, k, pending_count v g [] e));
    carries = nil;
    handed_after = sym (append-nil v.handed);
    counters = reload_back-Counters v.pp2vmm.queue g k;
    emptied =
        packets-layout v.pp2vmm g (reload_back v.pp2vmm.queue v.pp2vmm.queue.back)
          (record g { seen_pushed = g.pushed }) refl refl refl refl refl
        ∙ e;
    left = fs;
    left_count = refl;
    receives = r;
    same_vmm2pp = refl;
    same_notified = refl;
  }
  send_pending-Forwarded (p ∷ ps) (suc fuel) [] v g r some_free k e h = absurd (omega arith)
  send_pending-Forwarded (p ∷ ps) (suc fuel) (b ∷ bs) v g r some_free k e h =
      let some_left : g.popped < g.pushed = omega (arith, pending_count v g (p ∷ ps) e) in
      let v' : Vmm N = sent lib free active room laws b (polled v) in
      let (at_front, behind) = sent-packets b v g p ps k some_left e in
      let count = length-append bs (filled b ∷ []) in
      let rest =
        send_pending-Forwarded ps fuel (bs ++ (filled b ∷ [])) v' (popped_one g)
          (sent-Receives b bs v r) (omega (arith, count)) (sent-Counters b v g k some_left) behind
          (omega arith) in
      record {
        after = rest.after;
        seen = rest.seen;
        new = shown b (polled v) ∷ rest.new;
        returns =
            send_pending-round lib free active room laws fuel b bs v g r.all_free r.none_active
              r.inside.0 k some_left
            ∙ rest.returns;
        carries =
            cons refl (λ x small. shown-bytes b (polled v) x small ∙ ap (λ m. m x) at_front)
              rest.carries;
        handed_after = rest.handed_after ∙ append_assoc v.handed (shown b (polled v) ∷ []) rest.new;
        counters = rest.counters;
        emptied = rest.emptied;
        left = rest.left;
        left_count = omega (arith, rest.left_count, count);
        receives = rest.receives;
        same_vmm2pp = rest.same_vmm2pp;
        same_notified = rest.same_notified;
      }

  -- With at least one free receive buffer, none active and all of them inside the data area, and
  -- notified on CHAN_PINGPONG while `ps` are pending from the client, the VMM's handler returns as
  -- soon as it has more rounds than there are packets. The device has then taken, from the active
  -- queue, one descriptor for each packet, in order and with its 2048 bytes in the data area at that
  -- time; the region is empty, and as many buffers as before are free, under the laws of
  -- `ReceiveQueue` for the queue pair and the device.
  pub notified_lem :
      (ps : List Mem) (fuel : ℕ) (fs : List NetBuff) (v : Vmm N) (g : Ghost)
      → Receives free active fs v.net_rx
      → 0 < length fs
      → Counters v.pp2vmm.queue g
      → packets v.pp2vmm g ≡ ps
      → length ps < fuel
      → Forwarded free active v (length fs) ps (notified lib fuel chan_pingpong v)
  unfolding notified
  notified_lem ps fuel fs v g r some_free k e h =
      send_pending-Forwarded ps fuel fs v g r some_free k e h
