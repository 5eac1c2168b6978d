-- ===== src/PingPong/Read.antt =====
-- `custom_transport_seL4_read` against the list of pending packets.
use mathlib.Core.List.{head-eq_of_cons-eq, tail-eq_of_cons-eq}
use micro_ros_demos.Spsc.Fifo.{length-window}
use micro_ros_demos.Prelude.{
  ℕ, suc, ◌+◌, ◌-◌, ◌%◌, ◌^◌, ◌<◌, ◌≡◌, refl, ap, sym, ◌∙◌, List, [], ◌∷◌, ◌++◌, some, replicate,
  arith, if◌then◌else◌, length, true, ltb, false,
}
use micro_ros_demos.Memory.{Mem, load16, load_bytes}
use micro_ros_demos.Spsc.{SpscQueue, block_at, spsc_front_block, spsc_pop}
use micro_ros_demos.Spsc.Invariant.{Ghost, Counters, pop-Counters}
use micro_ros_demos.Channel.{Channel, done}
use micro_ros_demos.Channel.Contents.{
  SameLayout, packets, packets-layout, packets-front, front, blocks,
}
use micro_ros_demos.Net.{is_udp, get_payload, get_payload_len, ntohs}
use micro_ros_demos.PingPong.{
  Transport, custom_transport_sel4_read, is_addressed_to_me, next_packet,
}

-- None of the packets is for this endpoint.
abbrev pub AllForeign : Transport → List Mem → Type 0
AllForeign t [] = Unit {0}
AllForeign t (p ∷ ps) = (is_addressed_to_me t p ≡ false) × AllForeign t ps

abbrev channel : Transport → SpscQueue → Channel
channel t q = record t.vmm2pp { queue = q }

-- The queue after the loop has found a packet: the packets before it are popped.
record Found (t : Transport) (q : SpscQueue) (g : Ghost) (skipped : ℕ) (pkt : Mem) (rest : List Mem)
    : Type 0 where
  address : ℕ
  next : SpscQueue
  seen : Ghost
  returns : next_packet t (replicate (suc skipped) (q.back ∷ [])) q ≡ done (address, next)
  holds : t.vmm2pp.block address ≡ pkt
  counters : Counters next seen
  some_seen : seen.popped < seen.seen_pushed
  same_popped : seen.popped ≡ g.popped + skipped
  same_pushed : seen.pushed ≡ g.pushed
  layout : SameLayout q next
  remaining : packets (channel t (spsc_pop next)) (record seen { popped = suc seen.popped }) ≡ rest

-- A queue with a packet in it shows its oldest one.
pending :
    (t : Transport) (q : SpscQueue) (g : Ghost) (p : Mem) (ps : List Mem)
    → Counters q g
    → packets (channel t q) g ≡ p ∷ ps
    → g.popped < g.pushed
pending t q g p ps k e = omega (
  arith,
  ap length e,
  length-window (blocks (channel t q)) (2 ^ q.log2_capacity) g.popped (g.pushed - g.popped),
)

-- The address that the loop looks at first, what it finds there, and what is behind it.
head_packet :
    (t : Transport) (q : SpscQueue) (g : Ghost) (p : Mem) (ps : List Mem)
    → Counters q g
    → packets (channel t q) g ≡ p ∷ ps
    → (t.vmm2pp.block (block_at q q.consumer_cached_front) ≡ p)
      × (packets (channel t q) (record g { popped = suc g.popped }) ≡ ps)
head_packet t q g p ps k e =
    let both = sym (packets-front (channel t q) g k (pending t q g p ps k e)) ∙ e in
    (head-eq_of_cons-eq both, tail-eq_of_cons-eq both)

module _ (t : Transport) (q q' : SpscQueue) (seen : List ℕ) (rounds : List (List ℕ)) (a : ℕ) where
  next_packet-hit :
      spsc_front_block seen q ≡ some (a, q')
      → is_addressed_to_me t (t.vmm2pp.block a) ≡ true
      → next_packet t (seen ∷ rounds) q ≡ done (a, q')
  unfolding next_packet
  next_packet-hit e m = rw (e, next_packet, m)

  next_packet-skip :
      spsc_front_block seen q ≡ some (a, q')
      → is_addressed_to_me t (t.vmm2pp.block a) ≡ false
      → next_packet t (seen ∷ rounds) q ≡ next_packet t rounds (spsc_pop q')
  unfolding next_packet
  next_packet-skip e m = rw (e, next_packet, m)

next_packet-Found :
    (t : Transport) (foreign : List Mem) (pkt : Mem) (rest : List Mem) (q : SpscQueue) (g : Ghost)
    → Counters q g
    → packets (channel t q) g ≡ foreign ++ pkt ∷ rest
    → AllForeign t foreign
    → is_addressed_to_me t pkt ≡ true
    → Found t q g (length foreign) pkt rest
unfolding spsc_pop
next_packet-Found t [] pkt rest q g k e f m =
    let v = front q g k (pending t q g pkt rest k e) in
    let at_front = (head_packet t q g pkt rest k e).0 in
    record {
      address = block_at q q.consumer_cached_front;
      next = v.next;
      seen = v.seen;
      returns =
          next_packet-hit t q v.next (q.back ∷ []) [] (block_at q q.consumer_cached_front) v.returns
            (ap (is_addressed_to_me t) at_front ∙ m);
      holds = at_front;
      counters = v.counters;
      some_seen = v.some_seen;
      same_popped = omega (arith, v.same_popped);
      same_pushed = v.same_pushed;
      layout = v.layout;
      remaining =
          packets-layout (channel t q) (record g { popped = suc g.popped }) (spsc_pop v.next)
            (record v.seen { popped = suc v.seen.popped }) v.layout.same_begin
            v.layout.same_block_size v.layout.same_capacity (ap suc v.same_popped) v.same_pushed
          ∙ (head_packet t q g pkt rest k e).1;
    }
next_packet-Found t (p ∷ foreign) pkt rest q g k e f m =
    let v = front q g k (pending t q g p (foreign ++ pkt ∷ rest) k e) in
    let (at_front, behind) = head_packet t q g p (foreign ++ pkt ∷ rest) k e in
    let r =
      next_packet-Found t foreign pkt rest (spsc_pop v.next)
        (record v.seen { popped = suc v.seen.popped })
        (pop-Counters v.next v.seen v.counters v.some_seen)
        (packets-layout (channel t q) (record g { popped = suc g.popped }) (spsc_pop v.next)
            (record v.seen { popped = suc v.seen.popped }) v.layout.same_begin
            v.layout.same_block_size v.layout.same_capacity (ap suc v.same_popped) v.same_pushed
          ∙ behind)
        f.1 m in
    record {
      address = r.address;
      next = r.next;
      seen = r.seen;
      returns =
          next_packet-skip t q v.next (q.back ∷ []) (replicate (suc (length foreign)) (q.back ∷ []))
            (block_at q q.consumer_cached_front) v.returns
            (ap (is_addressed_to_me t) at_front ∙ f.0)
          ∙ ap (λ b. next_packet t (replicate (suc (length foreign)) (b ∷ [])) (spsc_pop v.next))
              (sym v.layout.same_back)
          ∙ r.returns;
      holds = r.holds;
      counters = r.counters;
      some_seen = r.some_seen;
      same_popped = omega (arith, r.same_popped, v.same_popped);
      same_pushed = r.same_pushed ∙ v.same_pushed;
      layout = record {
        same_begin = r.layout.same_begin ∙ v.layout.same_begin;
        same_block_size = r.layout.same_block_size ∙ v.layout.same_block_size;
        same_capacity = r.layout.same_capacity ∙ v.layout.same_capacity;
        same_back = r.layout.same_back ∙ v.layout.same_back;
      };
      remaining = r.remaining;
    }

-- A packet that passes the address test passes the asserts of the functions that read its payload.
abbrev payload_length : Mem → ℕ
payload_length pkt = (ntohs (load16 pkt 38) + 2 ^ 64 - 8) % 2 ^ 64

addressed-is_udp : (t : Transport) (pkt : Mem) → is_addressed_to_me t pkt ≡ true → is_udp pkt ≡ true
unfolding is_addressed_to_me is_udp
addressed-is_udp t pkt m = ground arith

addressed-payload :
    (t : Transport) (pkt : Mem)
    → is_addressed_to_me t pkt ≡ true
    → (get_payload pkt ≡ some 42) × (get_payload_len pkt ≡ some (payload_length pkt))
unfolding get_payload get_payload_len
addressed-payload t pkt m = let udp = addressed-is_udp t pkt m in (rw udp, rw udp)

-- A read when `pkt` is the first pending packet for this endpoint: the packets before it are
-- dropped, and it is taken from the queue, whether or not its payload fits in `len` bytes.
pub record Received (t : Transport) (len : ℕ) (pkt : Mem) (rest : List Mem) (skipped : ℕ)
    : Type 0 where
  pub payload_len : ℕ
  pub payload_len_ok : get_payload_len pkt ≡ some payload_len
  pub next : Transport
  pub after : Ghost
  pub returns :
      custom_transport_sel4_read (replicate (suc skipped) (t.vmm2pp.queue.back ∷ [])) len t
      ≡ done (
        if ltb len payload_len then 0 else payload_len,
        if ltb len payload_len then [] else load_bytes pkt 42 payload_len,
        next,
      )
  pub counters : Counters next.vmm2pp.queue after
  pub remaining : packets next.vmm2pp after ≡ rest
  pub unchanged : record next { vmm2pp = t.vmm2pp } ≡ t

read-returns :
    (t : Transport) (len : ℕ) (rounds : List (List ℕ)) (a : ℕ) (q : SpscQueue) (pkt : Mem) (n : ℕ)
    → next_packet t rounds t.vmm2pp.queue ≡ done (a, q)
    → t.vmm2pp.block a ≡ pkt
    → get_payload pkt ≡ some 42
    → get_payload_len pkt ≡ some n
    → custom_transport_sel4_read rounds len t
      ≡ done (
        if ltb len n then 0 else n,
        if ltb len n then [] else load_bytes pkt 42 n,
        record t { vmm2pp = record t.vmm2pp { queue = spsc_pop q } },
      )
unfolding custom_transport_sel4_read
read-returns t len rounds a q pkt n e h s l =
    rw (e, custom_transport_sel4_read, h, s, l) (ground arith)

-- If some pending packet is for this endpoint, `custom_transport_seL4_read` returns, with one load
-- of `back` in each round: the payload of the first such packet if it fits in the buffer, and 0 if
-- not. The packets up to that one are gone, those behind it stay, and nothing else changes.
pub custom_transport_read_lem :
    (t : Transport) (g : Ghost) (foreign : List Mem) (pkt : Mem) (rest : List Mem) (len : ℕ)
    → Counters t.vmm2pp.queue g
    → packets t.vmm2pp g ≡ foreign ++ pkt ∷ rest
    → AllForeign t foreign
    → is_addressed_to_me t pkt ≡ true
    → Received t len pkt rest (length foreign)
unfolding custom_transport_sel4_read spsc_pop
custom_transport_read_lem t g foreign pkt rest len k e f m =
    let v = next_packet-Found t foreign pkt rest t.vmm2pp.queue g k e f m in
    let start = (addressed-payload t pkt m).0 in
    let fits = (addressed-payload t pkt m).1 in
    let n = payload_length pkt in
    record {
      payload_len = n;
      payload_len_ok = fits;
      next = record t { vmm2pp = record t.vmm2pp { queue = spsc_pop v.next } };
      after = record v.seen { popped = suc v.seen.popped };
      returns =
          read-returns t len (replicate (suc (length foreign)) (t.vmm2pp.queue.back ∷ [])) v.address
            v.next pkt n v.returns v.holds start fits;
      counters = pop-Counters v.next v.seen v.counters v.some_seen;
      remaining = v.remaining;
      unchanged = refl;
    }
