-- ===== src/Multithread/Measure.antt =====
-- A measure of what is left to do once `exit_flag` is set.
use mathlib.Core.Path.{ap₂}
use native.Mathlib.Decide.{ℕ_discrete}
use micro_ros_demos.Prelude.{
  ℕ, zero, suc, ◌+◌, ◌-◌, ◌*◌, ◌≤◌, ◌<◌, ◌≡◌, refl, ap, subst, Bool, true, arith, update,
  update_self, update_other,
}
use micro_ros_demos.Multithread.{
  PublishPc, not_created, starting, testing, publishing, sleeping, ended, MainPc, creating,
  setting_timeout, spinning, finishing_subscription, joining, finishing, finishing_node, returned,
  System, publisher_number, PublishStep, allocate, allocate_fails, enter_loop, leave_loop, publish,
  wake,
}

-- How many steps a thread, and main, can still take once the flag is set.
abbrev pub thread_rest : PublishPc → ℕ
thread_rest not_created = 0
thread_rest starting = 2
thread_rest testing = 1
thread_rest publishing = 3
thread_rest sleeping = 2
thread_rest ended = 0

abbrev pub main_rest : MainPc → ℕ
main_rest (creating k) = 0
main_rest setting_timeout = 0
main_rest spinning = 0
main_rest finishing_subscription = 9
main_rest (joining i) = 2 * (publisher_number - i) + 2
main_rest (finishing i) = 2 * (publisher_number - i) + 1
main_rest finishing_node = 1
main_rest returned = 0

abbrev pub total : ℕ → (ℕ → PublishPc) → ℕ
total zero f = 0
total (suc n) f = thread_rest (f n) + total n f

abbrev pub rest : System → ℕ
rest s = main_rest s.main + total publisher_number s.thread

total-above :
    (n i : ℕ) (f : ℕ → PublishPc) (pc : PublishPc) → n ≤ i → total n (update f i pc) ≡ total n f
total-above zero i f pc h = refl
total-above (suc n) i f pc h =
    ap₂ ◌+◌ (ap thread_rest (update_other f i n pc (λ e. omega (arith, e, h))))
      (total-above n i f pc (omega arith))

pub total-update :
    (n i : ℕ) (f : ℕ → PublishPc) (pc : PublishPc)
    → i < n
    → total n (update f i pc) + thread_rest (f i) ≡ total n f + thread_rest pc
total-update zero i f pc h = absurd (omega (arith, h))
total-update (suc n) i f pc h = elim (ℕ_discrete i n) [
  | yes e ↦
      let at_n : thread_rest (update f i pc n) ≡ thread_rest pc =
        ap thread_rest (subst (λ k. update f i pc k ≡ pc) e (update_self f i pc)) in
      let same : thread_rest (f i) ≡ thread_rest (f n) = ap (λ k. thread_rest (f k)) e in
      omega (arith, at_n, same, total-above n i f pc (omega (arith, e)))
  | no ne ↦
      let other : thread_rest (update f i pc n) ≡ thread_rest (f n) =
        ap thread_rest (update_other f i n pc ne) in
      omega (arith, other, total-update n i f pc (omega (arith, h, ne)))
]

thread_rest-le : (pc : PublishPc) → thread_rest pc ≤ 3
thread_rest-le pc = ground arith

pub total-le : (n : ℕ) (f : ℕ → PublishPc) → total n f ≤ 3 * n
total-le zero f = omega arith
total-le (suc n) f = omega (arith, thread_rest-le (f n), total-le n f)

pub main_rest-le : (m : MainPc) → main_rest m ≤ 9
main_rest-le m = ground arith

pub PublishStep-rest :
    (flag : Bool) (pc pc' : PublishPc)
    → flag ≡ true
    → PublishStep flag pc pc'
    → thread_rest pc' < thread_rest pc
PublishStep-rest flag pc pc' f allocate = omega arith
PublishStep-rest flag pc pc' f allocate_fails = omega arith
PublishStep-rest flag pc pc' f (enter_loop e) = absurd (cc)
PublishStep-rest flag pc pc' f (leave_loop e) = omega arith
PublishStep-rest flag pc pc' f publish = omega arith
PublishStep-rest flag pc pc' f wake = omega arith
