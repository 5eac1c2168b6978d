-- ===== src/Stubs/Tests.antt =====
-- The stubs on small inputs.
use micro_ros_demos.Prelude.{ℕ, ◌+◌, ◌*◌, ◌≤◌, ◌<◌, ◌≡◌, ◌≢◌, refl, List, [], ◌∷◌, arith}
use micro_ros_demos.Stubs.{clock_gettime, Heap, heap_size, EmutlsObject, Emutls}
use micro_ros_demos.Stubs.Time.{
  ticks_after, nanoseconds, clock_gettime_lem, dispatch_all, dispatch_all_lem,
}
use micro_ros_demos.Stubs.Mask.{IsAlignment}
use micro_ros_demos.Stubs.Storage.{ask_all, LaidOut, ask_all_lem}

-- The third call carries into the seconds.
clock_after_two_calls :
    ((clock_gettime 998).0.tv_nsec < 1000000000)
    × (nanoseconds (clock_gettime (ticks_after 2 998)).0
        ≡ nanoseconds (clock_gettime 998).0 + 2 * 1000000)
clock_after_two_calls = clock_gettime_lem 998 2

abbrev heap : Heap
heap = record { heap_mem = 4096; heap_brk = 4096 }

-- Asks for the break, moves it, and asks for too much and for another system call.
abbrev calls : List (ℕ × ℕ)
calls = (214, 0) ∷ (214, 5000) ∷ (214, 999999) ∷ (64, 1) ∷ []

break_after_calls :
    (4096 ≤ (dispatch_all calls heap).heap_brk)
    × ((dispatch_all calls heap).heap_brk ≤ 4096 + heap_size)
    × ((dispatch_all calls heap).heap_mem ≡ 4096)
break_after_calls = dispatch_all_lem calls heap (omega arith) (omega arith)

abbrev objects : ℕ → EmutlsObject
objects i = record { size = i + 5; align = 8 }

eight : (i : ℕ) → IsAlignment (objects i).align
eight i h = (3, omega arith, refl)

abbrev no_objects : Emutls
no_objects = record { emutls_next = 4096; ptr = λ i. 0 }

no_objects-LaidOut : LaidOut objects 4096 no_objects
no_objects-LaidOut = record {
  begin_set = omega arith;
  begin_le = omega arith;
  inside = λ i set. absurd (set refl);
  aligned = λ i a. refl;
  apart = λ i j ne set_i set_j. absurd (set_i refl);
}

abbrev asked : Emutls
asked = ask_all objects (1 ∷ 2 ∷ 1 ∷ []) no_objects

ask_all_lem_example :
    LaidOut objects 4096 asked
    × (asked.emutls_next ≤ 4096 + 43)
    × ((j : ℕ) → no_objects.ptr j ≢ 0 → asked.ptr j ≡ no_objects.ptr j)
ask_all_lem_example =
    ask_all_lem objects eight (1 ∷ 2 ∷ 1 ∷ []) 4096 no_objects no_objects-LaidOut (omega arith)
