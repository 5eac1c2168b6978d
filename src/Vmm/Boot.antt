-- ===== src/Vmm/Boot.antt =====
-- `init` of vmm.c. What the VMM library, the guest's images and sDDF do is an argument.
use micro_ros_demos.Prelude.{ℕ, zero, suc, ◌+◌, ◌*◌, Bool, ◌==◌, if◌then◌else◌}
use micro_ros_demos.Channel.{Channel, Outcome, done, aborts, ◌>>=◌}
use micro_ros_demos.Channel.Region.{init_region}
use micro_ros_demos.Vmm.{NetLib, Vmm, net_num_buffers, net_buf_size}

-- `assert` of the region's `spsc_init`
abbrev pub assert_region : ℕ → Channel → Outcome Channel
assert_region base c = let (ok, c') = init_region base c in if ok then done c' else aborts

-- What the calls return: `linux_setup_images`, `virq_controller_init`, `virtio_mmio_net_init` and
-- `fault_register_vm_exception_handler`.
pub record BootCalls : Type 0 where
  pub kernel_pc : ℕ
  pub virq_ok : Bool
  pub net_ok : Bool
  pub handler_ok : Bool

-- How `init` ends: with an error that it logs, or with a call of `guest_start` at that address.
pub data BootEnd : Type 0 where
  images_failed virq_failed net_failed handler_failed : BootEnd
  guest_started : ℕ → BootEnd

unfoldable pub boot_guest : BootCalls → BootEnd
boot_guest c =
    if c.kernel_pc == 0
    then images_failed
    else if c.virq_ok
    then if c.net_ok
      then if c.handler_ok then guest_started c.kernel_pc else handler_failed
      else net_failed
    else virq_failed

module _ {N : Type 0} (lib : NetLib N) where
  -- `for (i = ...) net_enqueue_free(q, { i * NET_BUF_SIZE, 0 })` with `left` rounds left
  unfoldable pub enqueue_buffers : ℕ → ℕ → N → N
  enqueue_buffers zero i n = n
  enqueue_buffers (suc left) i n =
      enqueue_buffers left (i + 1)
        (lib.enqueue_free n (record { io_or_offset = i * net_buf_size; len = 0 }))

  -- `net_queue_init` is the queue pair that it makes, for that capacity, in memory that is cleared,
  -- and `cancel_signal` what `net_cancel_signal_active` does. The two numbers are where the regions
  -- start.
  unfoldable pub init : (ℕ → N) → (N → N) → ℕ → ℕ → BootCalls → Vmm N → Outcome (BootEnd × Vmm N)
  init net_queue_init cancel_signal pp2vmm_at vmm2pp_at calls v = do
    pp2vmm ← assert_region pp2vmm_at v.pp2vmm
    vmm2pp ← assert_region vmm2pp_at v.vmm2pp
    done (
      boot_guest calls,
      record v {
        pp2vmm = pp2vmm;
        vmm2pp = vmm2pp;
        net_tx = enqueue_buffers net_num_buffers 0 (cancel_signal (net_queue_init net_num_buffers));
        net_rx = enqueue_buffers net_num_buffers 0 (net_queue_init net_num_buffers);
        tx_data = λ a. 0;
        rx_data = λ a. 0;
      },
    )
