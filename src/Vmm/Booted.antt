-- ===== src/Vmm/Booted.antt =====
-- What `init` of the VMM leaves behind.
use mathlib.Core.List.{append_assoc, append-nil}
use micro_ros_demos.Prelude.{
  ◌-◌, ◌≤◌, ◌⊎◌, inl, inr, ltb, Bool-cases, ℕ, zero, suc, ◌+◌, ◌*◌, ◌<◌, ◌≡◌, ◌∙◌, refl, sym, ap,
  Bool, List, [], ◌∷◌, ◌++◌, some, true, arith, length, get_elem?, ◌↔◌, if◌then◌else◌,
}
use micro_ros_demos.Channel.{Channel, Outcome, done, aborts}
use micro_ros_demos.Channel.Region.{init_region_lem, fresh_region}
use micro_ros_demos.Vmm.{NetBuff, NetLib, Vmm, net_num_buffers, net_buf_size}
use micro_ros_demos.Vmm.Boot.{
  assert_region, BootCalls, BootEnd, guest_started, boot_guest, enqueue_buffers, init,
}

-- The buffers with the numbers from `i` on.
abbrev buffers : ℕ → ℕ → List NetBuff
buffers zero i = []
buffers (suc n) i = record { io_or_offset = i * net_buf_size; len = 0 } ∷ buffers n (i + 1)

length-buffers : (n i : ℕ) → length (buffers n i) ≡ n
length-buffers zero i = refl
length-buffers (suc n) i = ap suc (length-buffers n (i + 1))

get_elem?-buffers :
    (n i k : ℕ)
    → k < n
    → get_elem? (buffers n i) k ≡ some (record { io_or_offset = (i + k) * net_buf_size; len = 0 })
get_elem?-buffers zero i k h = absurd (omega (arith, h))
get_elem?-buffers (suc n) i zero h =
    ap (λ t. some (record { io_or_offset = t; len = 0 })) (omega arith)
get_elem?-buffers (suc n) i (suc k) h =
    get_elem?-buffers n (i + 1) k (omega arith)
    ∙ ap (λ t. some (record { io_or_offset = t; len = 0 })) (omega arith)

-- What sDDF documents of a queue pair: `free` and `active` list its descriptors, oldest first, and
-- `room` says how many more its free queue takes. A full queue takes none.
pub record QueuePair {N : Type 0} (lib : NetLib N) (free active : N → List NetBuff) (room : N → ℕ)
    : Type 0 where
  pub enqueue_free_free :
      (n : N) (b : NetBuff) → 0 < room n → free (lib.enqueue_free n b) ≡ free n ++ (b ∷ [])
  pub enqueue_free_full : (n : N) (b : NetBuff) → room n ≡ 0 → free (lib.enqueue_free n b) ≡ free n
  pub enqueue_free_room : (n : N) (b : NetBuff) → room (lib.enqueue_free n b) ≡ room n - 1
  pub enqueue_free_active : (n : N) (b : NetBuff) → active (lib.enqueue_free n b) ≡ active n

-- A queue pair that owns the first `count` buffers of its data area, with none of them in use.
pub record FirstFree {N : Type 0} (free active : N → List NetBuff) (count : ℕ) (n : N)
    : Type 0 where
  pub none_active : active n ≡ []
  pub free_count : length (free n) ≡ count
  pub free_each :
      (k : ℕ)
      → k < count
      → get_elem? (free n) k ≡ some (record { io_or_offset = k * net_buf_size; len = 0 })

-- How many of the buffers a free queue with that room takes.
abbrev pub taken : ℕ → ℕ
taken r = if ltb r net_num_buffers then r else net_num_buffers

module _ {N : Type 0} (lib : NetLib N) (free active : N → List NetBuff) (room : N → ℕ)
    (laws : QueuePair lib free active room) where
  enqueue_buffers-active : (left i : ℕ) (n : N) → active (enqueue_buffers lib left i n) ≡ active n
  unfolding enqueue_buffers
  enqueue_buffers-active zero i n = refl
  enqueue_buffers-active (suc left) i n =
      let b : NetBuff = record { io_or_offset = i * net_buf_size; len = 0 } in
      enqueue_buffers-active left (i + 1) (lib.enqueue_free n b) ∙ laws.enqueue_free_active n b

  enqueue_buffers-full :
      (left i : ℕ) (n : N) → room n ≡ 0 → free (enqueue_buffers lib left i n) ≡ free n
  unfolding enqueue_buffers
  enqueue_buffers-full zero i n e = refl
  enqueue_buffers-full (suc left) i n e =
      let b : NetBuff = record { io_or_offset = i * net_buf_size; len = 0 } in
      enqueue_buffers-full left (i + 1) (lib.enqueue_free n b)
        (omega (arith, laws.enqueue_free_room n b))
      ∙ laws.enqueue_free_full n b e

  -- `k` of the buffers find room: all of them, or as many as there is room for.
  enqueue_buffers-free :
      (k left i : ℕ) (n : N)
      → k ≤ left
      → k ≤ room n
      → (k ≡ left) ⊎ (k ≡ room n)
      → free (enqueue_buffers lib left i n) ≡ free n ++ buffers k i
  unfolding enqueue_buffers
  enqueue_buffers-free zero zero i n few fits which = sym (append-nil (free n))
  enqueue_buffers-free zero (suc left) i n few fits (inl none_left) = absurd (omega arith)
  enqueue_buffers-free zero (suc left) i n few fits (inr full) =
      enqueue_buffers-full (suc left) i n (sym full) ∙ sym (append-nil (free n))
  enqueue_buffers-free (suc k) zero i n few fits which = absurd (omega arith)
  enqueue_buffers-free (suc k) (suc left) i n few fits which =
      let b : NetBuff = record { io_or_offset = i * net_buf_size; len = 0 } in
      let less = laws.enqueue_free_room n b in
      enqueue_buffers-free k left (i + 1) (lib.enqueue_free n b) (omega arith) (omega (arith, less))
        (elim which [ inl e ↦ inl (omega arith) | inr e ↦ inr (omega (arith, less)) ])
      ∙ ap (λ xs. xs ++ buffers k (i + 1)) (laws.enqueue_free_free n b (omega arith))
      ∙ append_assoc (free n) (b ∷ []) (buffers k (i + 1))

  taken-cases :
      (r : ℕ)
      → (taken r ≤ net_num_buffers) × (taken r ≤ r) × ((taken r ≡ net_num_buffers) ⊎ (taken r ≡ r))
  taken-cases r = elim (Bool-cases (ltb r net_num_buffers)) [
    | inl e ↦ (ground arith, ground arith, inr (ground arith))
    | inr e ↦ (ground arith, ground arith, inl (ground arith))
  ]

  enqueue_buffers-FirstFree :
      (n : N)
      → free n ≡ []
      → active n ≡ []
      → FirstFree free active (taken (room n)) (enqueue_buffers lib net_num_buffers 0 n)
  enqueue_buffers-FirstFree n f a =
      let count : ℕ = taken (room n) in
      let (few, fits, which) = taken-cases (room n) in
      let all : free (enqueue_buffers lib net_num_buffers 0 n) ≡ buffers count 0 =
        enqueue_buffers-free count net_num_buffers 0 n few fits which
        ∙ ap (λ xs. xs ++ buffers count 0) f in
      record {
        none_active = enqueue_buffers-active net_num_buffers 0 n ∙ a;
        free_count = ap length all ∙ length-buffers count 0;
        free_each = λ k h.
            ap (λ xs. get_elem? xs k) all
            ∙ get_elem?-buffers count 0 k h
            ∙ ap (λ t. some (record { io_or_offset = t * net_buf_size; len = 0 })) (omega arith);
      }

-- The guest is started at `pc`.
abbrev pub GuestRuns : BootCalls → ℕ → Type 0
GuestRuns calls pc =
    (calls.kernel_pc ≡ pc)
    × (0 < pc)
    × (calls.virq_ok ≡ true)
    × (calls.net_ok ≡ true)
    × (calls.handler_ok ≡ true)

-- The state that `init` ends in, with the queues of both regions new and empty and the first `tx`
-- and `rx` network buffers free.
pub record Booted {N : Type 0} (free active : N → List NetBuff) (tx rx pp2vmm_at vmm2pp_at : ℕ)
    (calls : BootCalls) (v : Vmm N) (r : Outcome (BootEnd × Vmm N)) : Type 0 where
  pub ended : BootEnd
  pub after : Vmm N
  pub returns : r ≡ done (ended, after)
  pub guest_runs : (pc : ℕ) → (ended ≡ guest_started pc) ↔ GuestRuns calls pc
  pub pp2vmm_fresh : after.pp2vmm ≡ fresh_region pp2vmm_at v.pp2vmm
  pub vmm2pp_fresh : after.vmm2pp ≡ fresh_region vmm2pp_at v.vmm2pp
  pub tx_free : FirstFree free active tx after.net_tx
  pub rx_free : FirstFree free active rx after.net_rx
  pub none_notified : after.notified ≡ v.notified

assert_region-fresh : (base : ℕ) (c : Channel) → assert_region base c ≡ done (fresh_region base c)
assert_region-fresh base c =
    ap (λ (r : Bool × Channel). if r.0 then done r.1 else aborts) (init_region_lem base c)

boot_guest-runs :
    (calls : BootCalls) (pc : ℕ) → boot_guest calls ≡ guest_started pc → GuestRuns calls pc
unfolding boot_guest
boot_guest-runs calls pc e = ground arith

runs-boot_guest :
    (calls : BootCalls) (pc : ℕ) → GuestRuns calls pc → boot_guest calls ≡ guest_started pc
unfolding boot_guest
runs-boot_guest calls pc h = ground arith

module _ {N : Type 0} (lib : NetLib N) (free active : N → List NetBuff) (room : N → ℕ)
    (laws : QueuePair lib free active room) where
  -- `init` always returns. It leaves both regions with a new queue of one block. Let the queues
  -- that `net_queue_init` makes be empty, also behind `net_cancel_signal_active`, and a free queue
  -- take what it has room for and nothing when it is full. Then of the sixteen buffers of each
  -- direction the first ones are in its free queue, all of them or as many as it has room for, in
  -- order and at the offsets that divide its data area, and none is active. `init` notifies
  -- nobody, and it starts the guest, at the address that the images gave, exactly if that is not 0
  -- and all three set-up calls succeed.
  pub init_lem :
      (net_queue_init : ℕ → N) (cancel_signal : N → N) (pp2vmm_at vmm2pp_at : ℕ) (calls : BootCalls)
      (v : Vmm N)
      → let new = net_queue_init net_num_buffers in
        free new ≡ []
        → active new ≡ []
        → free (cancel_signal new) ≡ []
        → active (cancel_signal new) ≡ []
        → Booted free active
            (taken (room (cancel_signal new)))
            (taken (room new))
            pp2vmm_at
            vmm2pp_at
            calls
            v
            (init lib net_queue_init cancel_signal pp2vmm_at vmm2pp_at calls v)
  unfolding init
  init_lem net_queue_init cancel_signal pp2vmm_at vmm2pp_at calls v f a f' a' = record {
    ended = boot_guest calls;
    after = record v {
      pp2vmm = fresh_region pp2vmm_at v.pp2vmm;
      vmm2pp = fresh_region vmm2pp_at v.vmm2pp;
      net_tx =
          enqueue_buffers lib net_num_buffers 0 (cancel_signal (net_queue_init net_num_buffers));
      net_rx = enqueue_buffers lib net_num_buffers 0 (net_queue_init net_num_buffers);
      tx_data = λ a. 0;
      rx_data = λ a. 0;
    };
    returns =
        rw (assert_region-fresh pp2vmm_at v.pp2vmm)
          (rw (assert_region-fresh vmm2pp_at v.vmm2pp) refl);
    guest_runs = λ pc. (boot_guest-runs calls pc, runs-boot_guest calls pc);
    pp2vmm_fresh = refl;
    vmm2pp_fresh = refl;
    tx_free =
        enqueue_buffers-FirstFree lib free active room laws
          (cancel_signal (net_queue_init net_num_buffers)) f' a';
    rx_free =
        enqueue_buffers-FirstFree lib free active room laws (net_queue_init net_num_buffers) f a;
    none_notified = refl;
  }
