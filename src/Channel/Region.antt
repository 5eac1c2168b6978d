-- ===== src/Channel/Region.antt =====
-- The two regions of ping_pong_sel4.system, each 0x100000 bytes with the queue in its first 320.
use micro_ros_demos.Prelude.{ℕ, ◌+◌, ◌*◌, ◌≡◌, refl, Bool, true, arith, ◌==◌, false}
use micro_ros_demos.Spsc.{spsc_init, cleared, block_count}
use micro_ros_demos.Spsc.Invariant.{Counters}
use micro_ros_demos.Spsc.Init.{no_blocks, ctz_511}
use micro_ros_demos.Channel.{Channel}

abbrev pub sizeof_spsc_queue : ℕ
sizeof_spsc_queue = 320

abbrev pub region_size : ℕ
region_size = 0x100000

-- `spsc_init` of the region at `base`, and what it returned.
abbrev pub init_region : ℕ → Channel → Bool × Channel
init_region base c =
    let (ok, q) = spsc_init c.queue (base + sizeof_spsc_queue) (base + region_size) 11 in
    (ok, record c { queue = q })

-- 511 blocks, of which the queue uses one.
abbrev pub fresh_region : ℕ → Channel → Channel
fresh_region base c = record c {
  queue = cleared (base + sizeof_spsc_queue) (base + sizeof_spsc_queue + 511 * 2048) 11 0;
}

blocks : (base : ℕ) → block_count (base + 320) (base + 0x100000) 11 ≡ 511
blocks base = omega arith

blocks_again : (base : ℕ) → block_count (base + 320) (base + 320 + 511 * 2048) 11 ≡ 511
blocks_again base = omega arith

apart : (base : ℕ) → ((base + 320) == (base + 320 + 511 * 2048)) ≡ false
apart base = ground arith

pub init_region_lem : (base : ℕ) (c : Channel) → init_region base c ≡ (true, fresh_region base c)
unfolding spsc_init
init_region_lem base c = rw (blocks base, apart base, blocks_again base, ctz_511) refl

pub fresh_region-Counters :
    (base : ℕ) (c : Channel) → Counters (fresh_region base c).queue no_blocks
fresh_region-Counters base c = omega arith
