-- ===== src/Vmm/Client.antt =====
-- Packets from the guest to the client.
use mathlib.Core.List.{append_assoc, append-nil}
use micro_ros_demos.Prelude.{
  ℕ, suc, ◌+◌, ◌%◌, ◌^◌, ◌≤◌, ◌<◌, ◌≡◌, refl, ap, sym, subst, ◌∙◌, List, [], ◌∷◌, ◌++◌, some, none,
  arith, length, replicate,
}
use micro_ros_demos.Memory.{Mem}
use micro_ros_demos.Spsc.{block_at, spsc_push}
use micro_ros_demos.Spsc.Invariant.{Ghost, Counters, push-Counters}
use micro_ros_demos.PingPong.{chan_pingpong}
use micro_ros_demos.Channel.{Outcome, done, put_block}
use micro_ros_demos.Channel.Contents.{packets, packets-layout}
use micro_ros_demos.Channel.Produce.{Room, room, packets-put_block}
use micro_ros_demos.Vmm.{
  NetBuff, NetLib, Vmm, pkt_size, copy, process_tx_packet, process_tx_pending,
}

-- What sDDF documents of a queue pair: `active` lists its active buffers, oldest first.
pub record ActiveQueue {N : Type 0} (lib : NetLib N) (active : N → List NetBuff) : Type 0 where
  pub dequeue_none :
      (n : N)
      → active n ≡ []
      → ((lib.dequeue_active n).0 ≡ none) × (active (lib.dequeue_active n).1 ≡ [])
  pub dequeue_some :
      (n : N) (b : NetBuff) (bs : List NetBuff)
      → active n ≡ b ∷ bs
      → ((lib.dequeue_active n).0 ≡ some b) × (active (lib.dequeue_active n).1 ≡ bs)
  pub enqueue_free_active : (n : N) (b : NetBuff) → active (lib.enqueue_free n b) ≡ active n

-- The packets are the contents of the guest's buffers, one for one.
pub data Copied (tx_data : Mem) : List Mem → List NetBuff → Type 0 where
  nil : Copied tx_data [] []
  cons :
      {p : Mem} {ps : List Mem} {b : NetBuff} {bs : List NetBuff}
      → ((x : ℕ) → x < b.len → p x ≡ tx_data (b.io_or_offset + x))
      → Copied tx_data ps bs
      → Copied tx_data (p ∷ ps) (b ∷ bs)

abbrev pub AllFit : List NetBuff → Type 0
AllFit [] = Unit {0}
AllFit (b ∷ bs) = (b.len ≤ pkt_size) × AllFit bs

-- The state after the guest's buffers `bs` have been passed on.
pub record Sent {N : Type 0} (active : N → List NetBuff) (v : Vmm N) (g : Ghost) (bs : List NetBuff)
    (r : Outcome (Vmm N)) : Type 0 where
  pub after : Vmm N
  pub seen : Ghost
  pub new : List Mem
  pub returns : r ≡ done after
  pub copied : Copied v.tx_data new bs
  pub appended : packets after.vmm2pp seen ≡ packets v.vmm2pp g ++ new
  pub counters : Counters after.vmm2pp.queue seen
  pub drained : active after.net_tx ≡ []
  pub notified_each : after.notified ≡ v.notified ++ replicate (length bs) chan_pingpong
  pub same_pp2vmm : after.pp2vmm ≡ v.pp2vmm

module _ {N : Type 0} (lib : NetLib N) where
  -- One packet into a queue with room.
  record SentOne (v : Vmm N) (g : Ghost) (b : NetBuff) : Type 0 where
    after : Vmm N
    seen : Ghost
    pkt : Mem
    returns : process_tx_packet lib (v.vmm2pp.queue.front ∷ []) b v ≡ done after
    holds : (x : ℕ) → x < b.len → pkt x ≡ v.tx_data (b.io_or_offset + x)
    appended : packets after.vmm2pp seen ≡ packets v.vmm2pp g ++ (pkt ∷ [])
    counters : Counters after.vmm2pp.queue seen
    same_popped : seen.popped ≡ g.popped
    one_more : seen.pushed ≡ suc g.pushed
    same_front : after.vmm2pp.queue.front ≡ v.vmm2pp.queue.front
    same_capacity : after.vmm2pp.queue.log2_capacity ≡ v.vmm2pp.queue.log2_capacity
    net_tx_after : after.net_tx ≡ lib.enqueue_free v.net_tx b
    same_tx_data : after.tx_data ≡ v.tx_data
    notified_after : after.notified ≡ v.notified ++ (chan_pingpong ∷ [])
    same_pp2vmm : after.pp2vmm ≡ v.pp2vmm

  packet-SentOne :
      (v : Vmm N) (g : Ghost) (b : NetBuff)
      → Counters v.vmm2pp.queue g
      → b.len ≤ pkt_size
      → g.pushed < g.popped + 2 ^ v.vmm2pp.queue.log2_capacity
      → SentOne v g b
  unfolding process_tx_packet spsc_push
  packet-SentOne v g b k fits h =
      let r : Room v.vmm2pp.queue g = room v.vmm2pp.queue g k h in
      let at : ℕ = block_at v.vmm2pp.queue v.vmm2pp.queue.producer_cached_back in
      let pkt : Mem = copy (v.vmm2pp.block at) 0 (λ x. v.tx_data (b.io_or_offset + x)) b.len in
      record {
        after = record v {
          vmm2pp = put_block (record v.vmm2pp { queue = spsc_push r.next }) at pkt;
          net_tx = lib.enqueue_free v.net_tx b;
          notified = v.notified ++ (chan_pingpong ∷ []);
        };
        seen = record r.seen { pushed = suc r.seen.pushed };
        pkt = pkt;
        returns = ground (arith, r.returns);
        holds = λ x small. ground arith;
        appended =
            packets-layout (put_block v.vmm2pp at pkt) (record g { pushed = suc g.pushed })
              (spsc_push r.next) (record r.seen { pushed = suc r.seen.pushed }) r.layout.same_begin
              r.layout.same_block_size r.layout.same_capacity r.same_popped (ap suc r.same_pushed)
            ∙ packets-put_block v.vmm2pp g pkt k (omega (arith, k)) h;
        counters = push-Counters r.next r.seen r.counters r.room_seen;
        same_popped = r.same_popped;
        one_more = ap suc r.same_pushed;
        same_front = r.counters.front_ok ∙ ap (λ t. t % 2 ^ 64) r.same_popped ∙ sym k.front_ok;
        same_capacity = r.layout.same_capacity;
        net_tx_after = refl;
        same_tx_data = refl;
        notified_after = refl;
        same_pp2vmm = refl;
      }

  abbrev taken : Vmm N → Vmm N
  taken v = record v { net_tx = (lib.dequeue_active v.net_tx).1 }

  pending-round :
      (v w : Vmm N) (b : NetBuff) (seen : List ℕ) (rounds : List (List ℕ))
      → (lib.dequeue_active v.net_tx).0 ≡ some b
      → process_tx_packet lib seen b (taken v) ≡ done w
      → process_tx_pending lib (seen ∷ rounds) v ≡ process_tx_pending lib rounds w
  unfolding process_tx_pending
  pending-round v w b seen rounds e h = rw (e, process_tx_pending, h) refl

  pending-end :
      (v : Vmm N)
      → (lib.dequeue_active v.net_tx).0 ≡ none
      → process_tx_pending lib [] v ≡ done (taken v)
  unfolding process_tx_pending
  pending-end v e = rw (process_tx_pending, e) refl

  module _ (active : N → List NetBuff) (laws : ActiveQueue lib active) where
    -- A guest that has sent the buffers `bs`, each of at most 2048 bytes, into a region with room
    -- for all of them: after the fault the VMM has passed each on as one packet, in order, has
    -- notified the client once for each and left none behind.
    pub process_tx_pending_lem :
        (bs : List NetBuff) (v : Vmm N) (g : Ghost)
        → active v.net_tx ≡ bs
        → AllFit bs
        → Counters v.vmm2pp.queue g
        → g.pushed + length bs ≤ g.popped + 2 ^ v.vmm2pp.queue.log2_capacity
        → Sent active v g bs
            (process_tx_pending lib (replicate (length bs) (v.vmm2pp.queue.front ∷ [])) v)
    process_tx_pending_lem [] v g e fit k h = record {
      after = taken v;
      seen = g;
      new = [];
      returns = pending-end v (laws.dequeue_none v.net_tx e).0;
      copied = nil;
      appended = sym (append-nil (packets v.vmm2pp g));
      counters = k;
      drained = (laws.dequeue_none v.net_tx e).1;
      notified_each = sym (append-nil v.notified);
      same_pp2vmm = refl;
    }
    process_tx_pending_lem (b ∷ bs) v g e fit k h =
        let (head, behind) = laws.dequeue_some v.net_tx b bs e in
        let one = packet-SentOne (taken v) g b k fit.0 (omega arith) in
        let r =
          process_tx_pending_lem bs one.after one.seen
            (ap active one.net_tx_after ∙ laws.enqueue_free_active (taken v).net_tx b ∙ behind)
            fit.1 one.counters
            (omega (arith, one.one_more, one.same_popped, ap (λ c. 2 ^ c) one.same_capacity)) in
        record {
          after = r.after;
          seen = r.seen;
          new = one.pkt ∷ r.new;
          returns =
              pending-round v one.after b (v.vmm2pp.queue.front ∷ [])
                (replicate (length bs) (v.vmm2pp.queue.front ∷ [])) head one.returns
              ∙ ap (λ f. process_tx_pending lib (replicate (length bs) (f ∷ [])) one.after)
                  (sym one.same_front)
              ∙ r.returns;
          copied = cons one.holds (subst (λ m. Copied m r.new bs) one.same_tx_data r.copied);
          appended =
              r.appended
              ∙ ap (λ xs. xs ++ r.new) one.appended
              ∙ append_assoc (packets v.vmm2pp g) (one.pkt ∷ []) r.new;
          counters = r.counters;
          drained = r.drained;
          notified_each =
              r.notified_each
              ∙ ap (λ xs. xs ++ replicate (length bs) chan_pingpong) one.notified_after
              ∙ append_assoc v.notified (chan_pingpong ∷ []) (replicate (length bs) chan_pingpong);
          same_pp2vmm = r.same_pp2vmm ∙ one.same_pp2vmm;
        }
