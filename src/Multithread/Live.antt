-- ===== src/Multithread/Live.antt =====
-- Which threads have been created, and where main stands once `exit_flag` is set.
use native.Mathlib.Decide.{ℕ_discrete}
use micro_ros_demos.Prelude.{
  ℕ, suc, ◌≤◌, ◌<◌, ◌≡◌, ◌≢◌, ◌∙◌, sym, subst, Bool, true, arith, update, update_self, update_other,
}
use micro_ros_demos.Multithread.{
  PublishPc, not_created, starting, MainPc, creating, setting_timeout, spinning,
  finishing_subscription, joining, finishing, finishing_node, returned, System, start, at,
  publisher_number, PublishStep, allocate, allocate_fails, enter_loop, leave_loop, publish, wake,
  Step, thread_step, create, created, set_timeout, set_timeout_fails, spin_ends, subscription_fini,
  subscription_fini_fails, join, publisher_fini, publisher_fini_fails, joined, node_fini,
  node_fini_fails, Reach, here, next,
}

-- The first so many threads have been created when main stands there.
abbrev pub created_below : MainPc → ℕ
created_below (creating k) = k
created_below setting_timeout = publisher_number
created_below spinning = publisher_number
created_below finishing_subscription = publisher_number
created_below (joining i) = publisher_number
created_below (finishing i) = publisher_number
created_below finishing_node = publisher_number
created_below returned = 0

-- Where main stands behind `exit_flag = true`.
abbrev pub IsEnding : MainPc → Type 0
IsEnding (creating k) = ⊥
IsEnding setting_timeout = ⊥
IsEnding spinning = ⊥
IsEnding finishing_subscription = Unit {0}
IsEnding (joining i) = i ≤ publisher_number
IsEnding (finishing i) = i < publisher_number
IsEnding finishing_node = Unit {0}
IsEnding returned = Unit {0}

pub record Live (s : System) : Type 0 where
  pub threads_created : (j : ℕ) → j < created_below s.main → s.thread j ≢ not_created
  pub ending : s.exit_flag ≡ true → IsEnding s.main

pub start-Live : Live start
start-Live = record { threads_created = λ j h. absurd (omega (arith, h)); ending = λ e. cc }

step-created : (flag : Bool) (pc pc' : PublishPc) → PublishStep flag pc pc' → pc' ≢ not_created
step-created flag pc pc' allocate e = cc
step-created flag pc pc' allocate_fails e = cc
step-created flag pc pc' (enter_loop h) e = cc
step-created flag pc pc' (leave_loop h) e = cc
step-created flag pc pc' publish e = cc
step-created flag pc pc' wake e = cc

-- A thread whose place is changed to one of a created thread.
update-created :
    (f : ℕ → PublishPc) (i n : ℕ) (pc : PublishPc)
    → pc ≢ not_created
    → ((j : ℕ) → j < n → i ≢ j → f j ≢ not_created)
    → (j : ℕ) → j < n
    → update f i pc j ≢ not_created
update-created f i n pc ne h j lt e = elim (ℕ_discrete i j) [
  | yes q ↦ ne (sym (subst (λ k. update f i pc k ≡ pc) q (update_self f i pc)) ∙ e)
  | no d ↦ h j lt d (sym (update_other f i j pc d) ∙ e)
]

module _ (s : System) (v : Live s) where
  IsEnding-at : (m : MainPc) → s.main ≡ m → s.exit_flag ≡ true → IsEnding m
  IsEnding-at m e f = subst IsEnding e (v.ending f)

  created_at : (m : MainPc) → s.main ≡ m → (j : ℕ) → j < created_below m → s.thread j ≢ not_created
  created_at m e =
      subst (λ m. (j : ℕ) → j < created_below m → s.thread j ≢ not_created) e v.threads_created

  -- Main goes from `m` on to `m'`.
  at-Live :
      (m m' : MainPc)
      → s.main ≡ m
      → created_below m' ≤ created_below m
      → (IsEnding m → IsEnding m')
      → Live (at s m')
  at-Live m m' e le f = record {
    threads_created = λ j h. created_at m e j (omega (arith, h, le));
    ending = λ x. f (IsEnding-at m e x);
  }

pub Step-Live : {s t : System} → Step s t → Live s → Live t
Step-Live {s} (thread_step i pc pc' ne lt e st) v = record {
  threads_created =
      update-created s.thread i (created_below s.main) pc' (step-created s.exit_flag pc pc' st)
        (λ j h d. v.threads_created j h);
  ending = v.ending;
}
Step-Live {s} (create k e lt) v = record {
  threads_created =
      update-created s.thread k (suc k) starting (λ q. cc)
        (λ j h d. created_at s v (creating k) e j (omega (arith, h, d)));
  ending = λ x. IsEnding-at s v (creating k) e x;
}
Step-Live {s} (created e) v =
    at-Live s v (creating publisher_number) setting_timeout e (omega arith) (λ x. x)
Step-Live {s} (set_timeout e) v = at-Live s v setting_timeout spinning e (omega arith) (λ x. x)
Step-Live {s} (set_timeout_fails e) v =
    at-Live s v setting_timeout returned e (omega arith) (λ x. tt)
Step-Live {s} (spin_ends e) v = record {
  threads_created = created_at s v spinning e;
  ending = λ x. tt;
}
Step-Live {s} (subscription_fini e) v =
    at-Live s v finishing_subscription (joining 0) e (omega arith) (λ x. omega arith)
Step-Live {s} (subscription_fini_fails e) v =
    at-Live s v finishing_subscription returned e (omega arith) (λ x. tt)
Step-Live {s} (join i e lt d) v = at-Live s v (joining i) (finishing i) e (omega arith) (λ x. lt)
Step-Live {s} (publisher_fini i e) v =
    let w = at-Live s v (finishing i) (joining (suc i)) e (omega arith) (λ x. omega (arith, x)) in
    record { threads_created = w.threads_created; ending = w.ending }
Step-Live {s} (publisher_fini_fails i e) v =
    at-Live s v (finishing i) returned e (omega arith) (λ x. tt)
Step-Live {s} (joined e) v =
    at-Live s v (joining publisher_number) finishing_node e (omega arith) (λ x. tt)
Step-Live {s} (node_fini e) v =
    let w = at-Live s v finishing_node returned e (omega arith) (λ x. tt) in
    record { threads_created = w.threads_created; ending = w.ending }
Step-Live {s} (node_fini_fails e) v = at-Live s v finishing_node returned e (omega arith) (λ x. tt)

pub Reach-Live : {s t : System} → Reach s t → Live s → Live t
Reach-Live here v = v
Reach-Live (next r st) v = Step-Live st (Reach-Live r v)
