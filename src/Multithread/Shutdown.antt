-- ===== src/Multithread/Shutdown.antt =====
-- How the process ends once `rclc_executor_spin` has returned.
use native.Mathlib.Decide.{ℕ_discrete}
use micro_ros_demos.Prelude.{
  ℕ, suc, ◌+◌, ◌≤◌, ◌<◌, ◌≡◌, ◌≢◌, refl, sym, ap, subst, true, arith, ◌⊎◌, inl, inr,
}
use micro_ros_demos.Multithread.{
  PublishPc, not_created, starting, testing, publishing, sleeping, ended, MainPc, creating,
  setting_timeout, spinning, finishing_subscription, joining, finishing, finishing_node, returned,
  System, start, at, thread_at, publisher_number, allocate, leave_loop, publish, wake, Step,
  thread_step, create, created, set_timeout, set_timeout_fails, spin_ends, subscription_fini,
  subscription_fini_fails, join, publisher_fini, publisher_fini_fails, joined, node_fini,
  node_fini_fails, Reach,
}
use micro_ros_demos.Multithread.Live.{
  Live, IsEnding, created_below, start-Live, Step-Live, Reach-Live,
}
use micro_ros_demos.Multithread.Measure.{
  thread_rest, main_rest, total, rest, total-update, total-le, main_rest-le, PublishStep-rest,
}

-- A step of main from `m` to `m'` that leaves the threads alone.
main-rest :
    (s t : System) (m m' : MainPc)
    → s.main ≡ m
    → t.main ≡ m'
    → t.thread ≡ s.thread
    → main_rest m' < main_rest m
    → rest t < rest s
main-rest s t m m' e e' same h =
    omega (arith, ap main_rest e, ap main_rest e', ap (total publisher_number) same)

not_before : (s : System) (m : MainPc) → Live s → s.exit_flag ≡ true → s.main ≡ m → IsEnding m
not_before s m v f e = subst IsEnding e (v.ending f)

-- Every step behind `exit_flag = true` leaves fewer to take.
Step-rest :
    {s t : System}
    → Step s t
    → Live s
    → s.exit_flag ≡ true
    → (t.exit_flag ≡ true) × (rest t < rest s)
Step-rest {s} (thread_step i pc pc' ne lt e st) v f = (
  f,
  omega (
    arith,
    total-update publisher_number i s.thread pc' lt,
    ap thread_rest e,
    PublishStep-rest s.exit_flag pc pc' f st,
  ),
)
Step-rest {s} (create k e lt) v f = absurd (not_before s (creating k) v f e)
Step-rest {s} (created e) v f = absurd (not_before s (creating publisher_number) v f e)
Step-rest {s} (set_timeout e) v f = absurd (not_before s setting_timeout v f e)
Step-rest {s} (set_timeout_fails e) v f = absurd (not_before s setting_timeout v f e)
Step-rest {s} (spin_ends e) v f = absurd (not_before s spinning v f e)
Step-rest {s} (subscription_fini e) v f =
    (f, main-rest s (at s (joining 0)) finishing_subscription (joining 0) e refl refl (omega arith))
Step-rest {s} (subscription_fini_fails e) v f =
    (f, main-rest s (at s returned) finishing_subscription returned e refl refl (omega arith))
Step-rest {s} (join i e lt d) v f =
    (f, main-rest s (at s (finishing i)) (joining i) (finishing i) e refl refl (omega arith))
Step-rest {s} {t} (publisher_fini i e) v f =
    let lt : i < publisher_number = not_before s (finishing i) v f e in
    (f, main-rest s t (finishing i) (joining (suc i)) e refl refl (omega arith))
Step-rest {s} (publisher_fini_fails i e) v f =
    (f, main-rest s (at s returned) (finishing i) returned e refl refl (omega arith))
Step-rest {s} (joined e) v f = (
  f,
  main-rest s (at s finishing_node) (joining publisher_number) finishing_node e refl refl
      (omega arith),
)
Step-rest {s} {t} (node_fini e) v f =
    (f, main-rest s t finishing_node returned e refl refl (omega arith))
Step-rest {s} (node_fini_fails e) v f =
    (f, main-rest s (at s returned) finishing_node returned e refl refl (omega arith))

-- A thread that main waits for can go on, or main can.
waiting-progress :
    (s : System) (i : ℕ) (pc : PublishPc)
    → s.main ≡ joining i
    → i < publisher_number
    → s.exit_flag ≡ true
    → s.thread i ≡ pc
    → pc ≢ not_created
    → (t : System) × Step s t
waiting-progress s i not_created m lt f e ne = absurd (ne refl)
waiting-progress s i starting m lt f e ne =
    (thread_at s i testing, thread_step i starting testing (λ r. cc) lt e allocate)
waiting-progress s i testing m lt f e ne =
    (thread_at s i ended, thread_step i testing ended (λ r. cc) lt e (leave_loop f))
waiting-progress s i publishing m lt f e ne =
    (thread_at s i sleeping, thread_step i publishing sleeping (λ r. cc) lt e publish)
waiting-progress s i sleeping m lt f e ne =
    (thread_at s i testing, thread_step i sleeping testing (λ r. cc) lt e wake)
waiting-progress s i ended m lt f e ne = (at s (finishing i), join i m lt e)

progress :
    (s : System) (m : MainPc)
    → Live s
    → s.exit_flag ≡ true
    → s.main ≡ m
    → IsEnding m
    → (s.main ≡ returned) ⊎ ((t : System) × Step s t)
progress s (creating k) v f e h = absurd h
progress s setting_timeout v f e h = absurd h
progress s spinning v f e h = absurd h
progress s finishing_subscription v f e h = inr (at s (joining 0), subscription_fini e)
progress s (joining i) v f e h = elim (ℕ_discrete i publisher_number) [
  | yes q ↦ inr (at s finishing_node, joined (subst (λ k. s.main ≡ joining k) q e))
  | no ne ↦
      let lt : i < publisher_number = omega (arith, h, ne) in
      inr (
        waiting-progress s i (s.thread i) e lt f refl
          (v.threads_created i (subst (λ m. i < created_below m) (sym e) lt)))
]
progress s (finishing i) v f e h = inr (at s returned, publisher_fini_fails i e)
progress s finishing_node v f e h = inr (at s returned, node_fini_fails e)
progress s returned v f e h = inl e

-- A run of so many steps.
pub data Run (s : System) : ℕ → System → Type 0 where
  no_steps : Run s 0 s
  more : {n : ℕ} {t u : System} → Run s n t → Step t u → Run s (suc n) u

record Ending (s : System) (n : ℕ) (t : System) : Type 0 where
  live : Live t
  flag : t.exit_flag ≡ true
  fewer : n + rest t ≤ rest s

Run-Ending : {s t : System} {n : ℕ} → Run s n t → Live s → s.exit_flag ≡ true → Ending s n t
Run-Ending no_steps v f = record { live = v; flag = f; fewer = omega arith }
Run-Ending (more r st) v f =
    let w = Run-Ending r v f in
    let (flag, less) = Step-rest st w.live w.flag in
    record { live = Step-Live st w.live; flag = flag; fewer = omega (arith, less, w.fewer) }

-- Once main has set `exit_flag`, no run goes on for more than 18 steps, and none gets stuck before
-- main has returned: whenever main has not, it or a thread that it waits for can take a step.
pub shutdown_lem :
    (t u : System) (n : ℕ)
    → Reach start t
    → t.exit_flag ≡ true
    → Run t n u
    → (n ≤ 18) × ((u.main ≡ returned) ⊎ ((w : System) × Step u w))
shutdown_lem t u n r f run =
    let v = Run-Ending run (Reach-Live r start-Live) f in
    (
      omega (arith, v.fewer, main_rest-le t.main, total-le publisher_number t.thread),
      progress u u.main v.live v.flag refl (v.live.ending v.flag),
    )
