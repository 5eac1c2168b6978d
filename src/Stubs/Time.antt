-- ===== src/Stubs/Time.antt =====
-- The clock and the heap's break over many calls.
use micro_ros_demos.Prelude.{ℕ, zero, suc, ◌+◌, ◌*◌, ◌≤◌, ◌<◌, ◌≡◌, List, [], ◌∷◌, arith}
use micro_ros_demos.Stubs.{Timespec, clock_gettime, Heap, heap_size, syscall_dispatch}

-- The state of the clock after some calls.
abbrev pub ticks_after : ℕ → ℕ → ℕ
ticks_after zero tick = tick
ticks_after (suc calls) tick = ticks_after calls (clock_gettime tick).1

abbrev pub nanoseconds : Timespec → ℕ
nanoseconds t = t.tv_sec * 1000000000 + t.tv_nsec

ticks_after-eq : (calls tick : ℕ) → ticks_after calls tick ≡ tick + calls
unfolding clock_gettime
ticks_after-eq zero tick = omega arith
ticks_after-eq (suc calls) tick = omega (arith, ticks_after-eq calls (tick + 1))

-- Every time that the clock gives is in its normal form, with less than a second of nanoseconds, and
-- `calls` calls later it has gone on by that many milliseconds, carries into the seconds included.
pub clock_gettime_lem :
    (tick calls : ℕ)
    → let now = (clock_gettime tick).0 in
      let later = (clock_gettime (ticks_after calls tick)).0 in
      (now.tv_nsec < 1000000000) × (nanoseconds later ≡ nanoseconds now + calls * 1000000)
unfolding clock_gettime
clock_gettime_lem tick calls = (omega arith, omega (arith, ticks_after-eq calls tick))

-- A call of the C library: the number of a system call and its first argument.
abbrev pub dispatch_all : List (ℕ × ℕ) → Heap → Heap
dispatch_all [] h = h
dispatch_all ((n, a1) ∷ calls) h = dispatch_all calls (syscall_dispatch n a1 h).1

-- Whatever system calls are made, the heap's break stays within the 128 KB of its memory, which stays
-- where it is.
pub dispatch_all_lem :
    (calls : List (ℕ × ℕ)) (h : Heap)
    → h.heap_mem ≤ h.heap_brk
    → h.heap_brk ≤ h.heap_mem + heap_size
    → let t = dispatch_all calls h in
      (h.heap_mem ≤ t.heap_brk) × (t.heap_brk ≤ h.heap_mem + heap_size) × (t.heap_mem ≡ h.heap_mem)
unfolding syscall_dispatch
dispatch_all_lem [] h l u = omega arith
dispatch_all_lem ((n, a1) ∷ calls) h l u =
    ground (arith, dispatch_all_lem calls (syscall_dispatch n a1 h).1)
