-- ===== src/Vmm/Tests.antt =====
-- The VMM on small inputs, with queue pairs that are two lists.
use micro_ros_demos.Prelude.{
  ℕ, zero, suc, ◌-◌, ◌⊎◌, inl, inr, length, ◌*◌, ◌+◌, ◌≡◌, refl, true, false, List, [], ◌∷◌, ◌++◌,
  Option, some, none, arith,
}
use micro_ros_demos.Spsc.{cleared}
use micro_ros_demos.Spsc.Invariant.{Ghost}
use micro_ros_demos.Spsc.Init.{no_blocks}
use micro_ros_demos.PingPong.{chan_pingpong, chan_ready, Transport, custom_transport_sel4_write}
use micro_ros_demos.Channel.{Channel, done}
use micro_ros_demos.Vmm.{NetBuff, NetLib, Vmm, process_tx_pending, notified}
use micro_ros_demos.Vmm.Delivery.{delivery_lem}
use micro_ros_demos.Net.{Mac, make_iphdr}
use micro_ros_demos.Memory.{Mem, load_bytes}
use micro_ros_demos.Vmm.Ready.{handle_signals, ready_signal_handler_lem}
use micro_ros_demos.Vmm.Rounds.{ReceiveQueue}
use micro_ros_demos.Vmm.Guest.{Receives, Forwarded, notified_lem}
use micro_ros_demos.Vmm.Boot.{BootCalls, init}
use micro_ros_demos.Vmm.Booted.{QueuePair, Booted, init_lem}
use micro_ros_demos.Vmm.Client.{ActiveQueue, Sent, process_tx_pending_lem}

-- `room` is how many more descriptors the free queue takes.
pub record TwoLists : Type 0 where
  pub free : List NetBuff
  pub active : List NetBuff
  pub room : ℕ

abbrev pub head_of : List NetBuff → Option NetBuff
head_of [] = none
head_of (b ∷ bs) = some b

abbrev pub tail_of : List NetBuff → List NetBuff
tail_of [] = []
tail_of (b ∷ bs) = bs

abbrev take_free : TwoLists → Option NetBuff × TwoLists
take_free n = elim n.free [
  | [] ↦ (none, n)
  | b ∷ bs ↦ (some b, record n { free = bs; room = suc n.room })
]

abbrev put_free : TwoLists → NetBuff → TwoLists
put_free n b = elim n.room [ zero ↦ n | suc r ↦ record n { free = n.free ++ (b ∷ []); room = r } ]

-- The device frees what it takes at once.
abbrev pub two_lists : NetLib TwoLists
two_lists = record {
  dequeue_free = take_free;
  dequeue_active = λ n. (head_of n.active, record n { active = tail_of n.active });
  enqueue_free = put_free;
  enqueue_active = λ n b. record n { active = n.active ++ (b ∷ []) };
  handle_rx = λ n. (
    n.active,
    record { free = n.free ++ n.active; active = []; room = n.room - length n.active },
  );
}

ℕ-cases : (n : ℕ) → (n ≡ 0) ⊎ ((r : ℕ) × (n ≡ suc r))
ℕ-cases zero = inl refl
ℕ-cases (suc r) = inr (r, refl)

put_free-active : (n : TwoLists) (b : NetBuff) → (put_free n b).active ≡ n.active
put_free-active n b = elim (ℕ-cases n.room) [ inl e ↦ rw e refl | inr (r, e) ↦ rw e refl ]

pub two_lists-ActiveQueue : ActiveQueue two_lists (λ n. n.active)
two_lists-ActiveQueue = record {
  dequeue_none = λ n e. rw e (refl, refl);
  dequeue_some = λ n b bs e. rw e (refl, refl);
  enqueue_free_active = put_free-active;
}

abbrev pub empty_region : Channel
empty_region = record { queue = cleared 320 (320 + 4 * 2048) 11 2; block = λ p a. 0 }

abbrev full_region : Channel
full_region = record {
  queue = record (cleared 320 (320 + 4 * 2048) 11 2) { back = 2; producer_cached_back = 2 };
  block = λ p a. p + a;
}

abbrev two_pending : Ghost
two_pending = record { popped = 0; pushed = 2; seen_popped = 0; seen_pushed = 0 }

abbrev two_buffers : List NetBuff
two_buffers =
    record { io_or_offset = 2048; len = 60 } ∷ record { io_or_offset = 0; len = 1500 } ∷ []

abbrev pub mac : Mac
mac = record { b0 = 2; b1 = 0; b2 = 0; b3 = 0; b4 = 0; b5 = 1 }

-- Two packets from the client are pending, and the guest has sent two.
abbrev busy : Vmm TwoLists
busy = record {
  pp2vmm = full_region;
  vmm2pp = empty_region;
  net_rx = record { free = record { io_or_offset = 0; len = 0 } ∷ []; active = []; room = 15 };
  net_tx = record { free = []; active = two_buffers; room = 16 };
  rx_data = λ a. 0;
  tx_data = λ a. a;
  handed = [];
  notified = [];
  ready_signal_sent = false;
}

one_write_signals : (handle_signals (false ∷ true ∷ true ∷ []) busy).notified ≡ chan_ready ∷ []
one_write_signals = ready_signal_handler_lem (false ∷ true ∷ true ∷ []) busy refl

two_lists-ReceiveQueue : ReceiveQueue two_lists (λ n. n.free) (λ n. n.active) (λ n. n.room)
two_lists-ReceiveQueue = record {
  dequeue_none = λ n e. rw e refl;
  dequeue_some = λ n b bs e. rw e (refl, refl, refl, refl);
  enqueue_active_active = λ n b e. rw e refl;
  enqueue_active_free = λ n b. refl;
  enqueue_active_room = λ n b. refl;
  handle_rx_taken = λ n. refl;
  handle_rx_active = λ n. refl;
  handle_rx_free = λ n h. refl;
}

-- One buffer is free, and it is used twice.
busy-Receives :
    Receives (λ n. n.free) (λ n. n.active) (record { io_or_offset = 0; len = 0 } ∷ []) busy.net_rx
busy-Receives = record { all_free = refl; none_active = refl; inside = (omega arith, tt) }

notified_lem_example :
    Forwarded
      (λ n. n.free)
      (λ n. n.active)
      busy
      1
      ((λ a. 320 + a) ∷ (λ a. 2368 + a) ∷ [])
      (notified two_lists 3 chan_pingpong busy)
notified_lem_example =
    notified_lem two_lists (λ n. n.free) (λ n. n.active) (λ n. n.room) two_lists-ReceiveQueue
      ((λ a. 320 + a) ∷ (λ a. 2368 + a) ∷ []) 3 (record { io_or_offset = 0; len = 0 } ∷ []) busy
      two_pending busy-Receives (omega arith) (omega arith) refl (omega arith)

process_tx_pending_lem_example :
    Sent
      (λ n. n.active)
      busy
      no_blocks
      two_buffers
      (process_tx_pending two_lists ((0 ∷ []) ∷ (0 ∷ []) ∷ []) busy)
process_tx_pending_lem_example =
    process_tx_pending_lem two_lists (λ n. n.active) two_lists-ActiveQueue two_buffers busy
      no_blocks refl (omega arith, (omega arith, tt)) (omega arith) (omega arith)

-- A client whose region to the VMM has two packets pending already.
abbrev client : Transport
client = record {
  pp2vmm = full_region;
  vmm2pp = empty_region;
  tx_eth_hdr = record { h_dest = mac; h_source = mac; h_proto = 8 };
  tx_ip_hdr = make_iphdr 1 2;
  tx_udp_hdr = record { uh_sport = 1; uh_dport = 2; uh_ulen = 0; uh_sum = 0 };
  notified = [];
}

delivery_lem_example :
    (t' : Transport) × (custom_transport_sel4_write (0 ∷ []) (5 ∷ 6 ∷ 7 ∷ []) client ≡ done (3, t'))
    × (pkt : Mem) × (load_bytes pkt 42 3 ≡ 5 ∷ 6 ∷ 7 ∷ [])
    × Forwarded
        (λ n. n.free)
        (λ n. n.active)
        (record busy { pp2vmm = t'.pp2vmm })
        1
        ((λ a. 320 + a) ∷ (λ a. 2368 + a) ∷ pkt ∷ [])
        (notified two_lists 4 chan_pingpong (record busy { pp2vmm = t'.pp2vmm }))
unfolding make_iphdr
delivery_lem_example =
    delivery_lem two_lists (λ n. n.free) (λ n. n.active) (λ n. n.room) two_lists-ReceiveQueue
      (5 ∷ 6 ∷ 7 ∷ []) client two_pending (record { io_or_offset = 0; len = 0 } ∷ []) busy 4
      busy-Receives (omega arith) (omega arith) refl (omega arith) (omega arith) (omega arith)

two_lists-QueuePair : QueuePair two_lists (λ n. n.free) (λ n. n.active) (λ n. n.room)
two_lists-QueuePair = record {
  enqueue_free_free = λ n b h. elim (ℕ-cases n.room) [
    | inl e ↦ absurd (omega (arith, e, h))
    | inr (r, e) ↦ rw e refl
  ];
  enqueue_free_full = λ n b e. rw e refl;
  enqueue_free_room = λ n b. elim (ℕ-cases n.room) [
    | inl e ↦ rw e (omega (arith, e))
    | inr (r, e) ↦ rw e (omega (arith, e))
  ];
  enqueue_free_active = put_free-active;
}

-- The guest's network device cannot be set up.
abbrev no_device : BootCalls
no_device = record { kernel_pc = 0x40000000; virq_ok = true; net_ok = false; handler_ok = true }

-- The queues take as many buffers as they are made for.
abbrev new_queue : ℕ → TwoLists
new_queue n = record { free = []; active = []; room = n }

init_lem_example :
    Booted
      (λ n. n.free)
      (λ n. n.active)
      16
      16
      0x5000000
      0x6000000
      no_device
      busy
      (init two_lists new_queue (λ n. n) 0x5000000 0x6000000 no_device busy)
init_lem_example =
    init_lem two_lists (λ n. n.free) (λ n. n.active) (λ n. n.room) two_lists-QueuePair new_queue
      (λ n. n) 0x5000000 0x6000000 no_device busy refl refl refl refl
