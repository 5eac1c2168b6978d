-- ===== src/Multithread.antt =====
-- rclc/multithread_publisher_subscriber/main.c: three threads that publish while main spins, as the
-- steps that they take in any order. `pthread_create` and `pthread_join` are taken to succeed.
mod Invariant
mod Live
mod Measure
mod Shutdown
mod Tests
use micro_ros_demos.Prelude.{ℕ, zero, suc, ◌<◌, ◌≡◌, ◌≢◌, Bool, true, false, update}

abbrev pub publisher_number : ℕ
publisher_number = 3

-- Where a thread that runs `publish` stands. `starting` allocates its message, `testing` is about to
-- read `exit_flag`, `publishing` about to call `rcl_publish`.
pub data PublishPc : Type 0 where
  not_created starting testing publishing sleeping ended : PublishPc

-- Where main stands: before the creation of thread `k`, in `rclc_executor_spin`, before
-- `rcl_subscription_fini`, before the join of thread `i`, and before `rcl_publisher_fini` of `i`.
pub data MainPc : Type 0 where
  creating : ℕ → MainPc
  setting_timeout spinning finishing_subscription : MainPc
  joining finishing : ℕ → MainPc
  finishing_node returned : MainPc

pub record System : Type 0 where
  pub main : MainPc
  pub thread : ℕ → PublishPc
  pub exit_flag : Bool
  pub publisher_live : ℕ → Bool
  pub node_live : Bool

-- The state after the first part of main, which sets up the node and the publishers.
abbrev pub start : System
start = record {
  main = creating 0;
  thread = λ i. not_created;
  exit_flag = false;
  publisher_live = λ i. true;
  node_live = true;
}

abbrev pub at : System → MainPc → System
at s pc = record s { main = pc }

abbrev pub thread_at : System → ℕ → PublishPc → System
thread_at s i pc = record s { thread = update s.thread i pc }

-- A step of `publish` in thread `i`.
pub data PublishStep (flag : Bool) : PublishPc → PublishPc → Type 0 where
  allocate : PublishStep flag starting testing
  allocate_fails : PublishStep flag starting ended
  enter_loop : flag ≡ false → PublishStep flag testing publishing
  leave_loop : flag ≡ true → PublishStep flag testing ended
  publish : PublishStep flag publishing sleeping
  wake : PublishStep flag sleeping testing

-- A step of the process. Once main has returned, it is over. A failed RCCHECK returns from main.
pub data Step (s : System) : System → Type 0 where
  thread_step :
      (i : ℕ) (pc pc' : PublishPc)
      → s.main ≢ returned
      → i < publisher_number
      → s.thread i ≡ pc
      → PublishStep s.exit_flag pc pc'
      → Step s (thread_at s i pc')
  create :
      (k : ℕ)
      → s.main ≡ creating k
      → k < publisher_number
      → Step s (record s { main = creating (suc k); thread = update s.thread k starting })
  created : s.main ≡ creating publisher_number → Step s (at s setting_timeout)
  set_timeout : s.main ≡ setting_timeout → Step s (at s spinning)
  set_timeout_fails : s.main ≡ setting_timeout → Step s (at s returned)
  spin_ends :
      s.main ≡ spinning → Step s (record s { main = finishing_subscription; exit_flag = true })
  subscription_fini : s.main ≡ finishing_subscription → Step s (at s (joining 0))
  subscription_fini_fails : s.main ≡ finishing_subscription → Step s (at s returned)
  join :
      (i : ℕ)
      → s.main ≡ joining i
      → i < publisher_number
      → s.thread i ≡ ended
      → Step s (at s (finishing i))
  publisher_fini :
      (i : ℕ)
      → s.main ≡ finishing i
      → Step s
          (record s { main = joining (suc i); publisher_live = update s.publisher_live i false })
  publisher_fini_fails : (i : ℕ) → s.main ≡ finishing i → Step s (at s returned)
  joined : s.main ≡ joining publisher_number → Step s (at s finishing_node)
  node_fini : s.main ≡ finishing_node → Step s (record s { main = returned; node_live = false })
  node_fini_fails : s.main ≡ finishing_node → Step s (at s returned)

pub data Reach (s : System) : System → Type 0 where
  here : Reach s s
  next : {t u : System} → Reach s t → Step t u → Reach s u
