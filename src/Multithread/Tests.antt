-- ===== src/Multithread/Tests.antt =====
-- A run of the process.
use micro_ros_demos.Prelude.{ℕ, suc, ◌≤◌, ◌≡◌, refl, true, arith, update, ◌⊎◌}
use micro_ros_demos.Multithread.{
  starting, testing, publishing, creating, setting_timeout, spinning, finishing_subscription,
  joining, returned, System, start, at, thread_at, allocate, enter_loop, Step, thread_step, create,
  created, set_timeout, spin_ends, subscription_fini, Reach, here, next,
}
use micro_ros_demos.Multithread.Invariant.{publishing_live}
use micro_ros_demos.Multithread.Shutdown.{no_steps, more, shutdown_lem}

abbrev after_create : System → ℕ → System
after_create s k = record s { main = creating (suc k); thread = update s.thread k starting }

abbrev s1 : System
s1 = after_create start 0

-- The first thread is about to publish while main creates the second.
abbrev s2 : System
s2 = thread_at s1 0 testing

abbrev s3 : System
s3 = thread_at s2 0 publishing

reach3 : Reach start s3
reach3 =
    next {t = s2}
      (next {t = s1} (next {t = start} here (create 0 refl (omega arith)))
        (thread_step 0 starting testing (λ r. cc) (omega arith) refl allocate))
      (thread_step 0 testing publishing (λ r. cc) (omega arith) refl (enter_loop refl))

publishing_live_example : (s3.publisher_live 0 ≡ true) × (s3.node_live ≡ true)
publishing_live_example = publishing_live s3 0 reach3 (omega arith) refl

-- Main creates the others, spins, and ends.
abbrev s4 : System
s4 = after_create s3 1

abbrev s5 : System
s5 = after_create s4 2

abbrev s6 : System
s6 = at s5 setting_timeout

abbrev s7 : System
s7 = at s6 spinning

abbrev s8 : System
s8 = record s7 { main = finishing_subscription; exit_flag = true }

reach8 : Reach start s8
reach8 =
    next {t = s7}
      (next {t = s6}
        (next {t = s5}
          (next {t = s4} (next {t = s3} reach3 (create 1 refl (omega arith)))
            (create 2 refl (omega arith)))
          (created refl))
        (set_timeout refl))
      (spin_ends refl)

abbrev s9 : System
s9 = at s8 (joining 0)

shutdown_lem_example : (1 ≤ 18) × ((s9.main ≡ returned) ⊎ ((w : System) × Step s9 w))
shutdown_lem_example =
    shutdown_lem s8 s9 1 reach8 refl (more {t = s8} no_steps (subscription_fini refl))
