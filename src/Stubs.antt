-- ===== src/Stubs.antt =====
-- rclc/ping_pong_sel4/stubs/: what the C library of the client's protection domain asks of a system:
-- the clock, the break of the heap and the addresses of thread-local objects.
mod Mask
mod Storage
mod Time
mod Tests
use micro_ros_demos.Prelude.{
  ℕ, zero, suc, ◌+◌, ◌-◌, ◌*◌, ◌/◌, ◌%◌, ◌^◌, Bool, true, false, ◌==◌, ◌&&◌, if◌then◌else◌, ltb,
  leb,
}

-- `struct timespec`
pub record Timespec : Type 0 where
  pub tv_sec : ℕ
  pub tv_nsec : ℕ

-- The argument is the static `tick`, which stays far below 2^63.
unfoldable pub clock_gettime : ℕ → Timespec × ℕ
clock_gettime tick =
    (record { tv_sec = (tick + 1) / 1000; tv_nsec = (tick + 1) % 1000 * 1000000 }, tick + 1)

abbrev pub heap_size : ℕ
heap_size = 128 * 1024

-- Where `heap_mem` starts, and `heap_brk`.
pub record Heap : Type 0 where
  pub heap_mem : ℕ
  pub heap_brk : ℕ

-- The long that is returned as its 64 bits; -38 is ENOSYS.
unfoldable pub syscall_dispatch : ℕ → ℕ → Heap → ℕ × Heap
syscall_dispatch n a1 h =
    if n == 214
    then if a1 == 0
      then (h.heap_brk, h)
      else if leb h.heap_mem a1 && leb a1 (h.heap_mem + heap_size)
      then (a1, record h { heap_brk = a1 })
      else (h.heap_brk, h)
    else (2 ^ 64 - 38, h)

-- `struct __emutls_object` without its address
pub record EmutlsObject : Type 0 where
  pub size : ℕ
  pub align : ℕ

-- `emutls_next`, and `loc.ptr` of every object. 0 is NULL.
pub record Emutls : Type 0 where
  pub emutls_next : ℕ
  pub ptr : ℕ → ℕ

-- `a & b` of numbers with that many bits
pub and_bits : ℕ → ℕ → ℕ → ℕ
and_bits zero a b = 0
and_bits (suc bits) a b = a % 2 * (b % 2) + 2 * and_bits bits (a / 2) (b / 2)

-- `(addr + align - 1) & ~(align - 1)` on 64 bits
unfoldable pub aligned_up : ℕ → ℕ → ℕ
aligned_up addr align =
    if ltb 1 align
    then and_bits 64 ((addr + align - 1) % 2 ^ 64) (2 ^ 64 - 1 - (align - 1))
    else addr

unfoldable pub emutls_get_address : (ℕ → EmutlsObject) → ℕ → Emutls → ℕ × Emutls
emutls_get_address objects i s =
    let addr = aligned_up s.emutls_next (objects i).align in
    if s.ptr i == 0
    then (
      addr,
      record {
        emutls_next = (addr + (objects i).size) % 2 ^ 64;
        ptr = λ j. if i == j then addr else s.ptr j;
      },
    )
    else (s.ptr i, s)
