-- ===== src/Programs/Runs.antt =====
-- What every run of the programs keeps to, whatever the library's calls return.
use micro_ros_demos.Prelude.{
  ℕ, zero, suc, ◌++◌, Bool-cases, inl, inr, ◌≡◌, refl, List, [], ◌∷◌, Bool, true, false, arith,
  ◌&&◌,
}
use micro_ros_demos.Rclc.{
  World, repeated, soft, check, fini, executor_add, act, publisher, Stmt, Library, Log, exec,
  is_safe, verify, nothing, world_after, allowed, apply,
}
use micro_ros_demos.Rclc.{Call, init, node, action_client, the}
use micro_ros_demos.Rclc.Calls.{spin_some, node_fini, support_init, node_init, new_executor}
use micro_ros_demos.Rclc.Runs.{verify-exec, exec-unsafe}
use micro_ros_demos.Programs.Topics.{
  int32_publisher, int32_subscriber, int32_publisher_subscriber, string_publisher,
  string_subscriber, fragmented_publication, fragmented_subscription, complex_msg_publisher,
  complex_msg_subscriber, epoch_synchronization, timer_demo, autodiscover_agent, custom_transports,
  configured_publisher, configured_subscriber,
}
use micro_ros_demos.Programs.Services.{
  addtwoints_client, fibonacci_action_server, fibonacci_action_client,
}
use micro_ros_demos.Programs.Nodes.{
  int32_multinode, multithread_publisher_subscriber, ping_pong, ping_uros_agent, publisher_count,
  subscription_count, static_type_handling, transport_init,
}

pub careful_programs : List (List Stmt)
careful_programs =
    int32_publisher ∷ int32_subscriber ∷ int32_publisher_subscriber ∷ string_publisher
    ∷ string_subscriber ∷ fragmented_publication ∷ fragmented_subscription ∷ complex_msg_subscriber
    ∷ epoch_synchronization ∷ timer_demo ∷ autodiscover_agent ∷ custom_transports
    ∷ configured_publisher ∷ configured_subscriber ∷ addtwoints_client
    ∷ multithread_publisher_subscriber ∷ ping_pong ∷ ping_uros_agent ∷ publisher_count
    ∷ subscription_count ∷ transport_init ∷ []

verify_all : List (List Stmt) → Bool
verify_all [] = true
verify_all (p ∷ ps) = verify p nothing && verify_all ps

abbrev SafeRuns : List (List Stmt) → Type 0
SafeRuns [] = Unit {0}
SafeRuns (p ∷ ps) = ((lib : Library) → is_safe (exec lib p []).1 ≡ true) × SafeRuns ps

verify_all-SafeRuns : (ps : List (List Stmt)) → verify_all ps ≡ true → SafeRuns ps
unfolding verify_all is_safe world_after
verify_all-SafeRuns [] h = tt
verify_all-SafeRuns (p ∷ ps) h =
    (λ lib. verify-exec lib p [] refl (ground arith), verify_all-SafeRuns ps (ground arith))

careful_programs_verify : verify_all careful_programs ≡ true
unfolding careful_programs verify_all verify allowed apply int32_publisher int32_subscriber
    int32_publisher_subscriber string_publisher string_subscriber fragmented_publication
    fragmented_subscription complex_msg_subscriber epoch_synchronization timer_demo
    autodiscover_agent custom_transports configured_publisher configured_subscriber
    addtwoints_client multithread_publisher_subscriber ping_pong ping_uros_agent publisher_count
    subscription_count transport_init
careful_programs_verify = refl

-- In every run of each of these programs, whichever calls the library lets fail, each call has what
-- it needs: the objects that it names are set up and not yet torn down, and an executor is never
-- given more handles than it was set up with.
pub careful_programs_lem : SafeRuns careful_programs
careful_programs_lem = verify_all-SafeRuns careful_programs careful_programs_verify

-- A loop over calls that only need what is there can go on as long as it likes.
loop-verify :
    (w : World) (body : List Stmt) (rounds : ℕ)
    → ((p : List Stmt) → verify p w ≡ true → verify (body ++ p) w ≡ true)
    → verify (repeated rounds body) w ≡ true
unfolding verify repeated
loop-verify w body zero h = refl
loop-verify w body (suc n) h = h (repeated n body) (loop-verify w body n h)

complex_msg_publisher-verify : (rounds : ℕ) → verify (complex_msg_publisher rounds) nothing ≡ true
unfolding verify allowed apply complex_msg_publisher
complex_msg_publisher-verify rounds =
    loop-verify _ (soft (act "rcl_publish" "" (the publisher ∷ [])) ∷ []) rounds (λ p e. rw e refl)

int32_multinode-verify : (rounds : ℕ) → verify (int32_multinode rounds) nothing ≡ true
unfolding verify allowed apply int32_multinode
int32_multinode-verify rounds =
    loop-verify _ (soft (spin_some 0) ∷ soft (spin_some 1) ∷ []) rounds (λ p e. rw e refl)

static_type_handling-verify : (rounds : ℕ) → verify (static_type_handling rounds) nothing ≡ true
unfolding verify allowed apply static_type_handling
static_type_handling-verify rounds =
    loop-verify _ (soft (spin_some 0) ∷ []) rounds (λ p e. rw e refl)

fibonacci_action_server-verify :
    (rounds : ℕ) → verify (fibonacci_action_server rounds) nothing ≡ true
unfolding verify allowed apply fibonacci_action_server
fibonacci_action_server-verify rounds =
    loop-verify _ (soft (spin_some 0) ∷ []) rounds (λ p e. rw e refl)

verify-runs :
    (p : List Stmt) → verify p nothing ≡ true → (lib : Library) → is_safe (exec lib p []).1 ≡ true
unfolding is_safe world_after
verify-runs p h lib = verify-exec lib p [] refl h

-- In every run of complex_msg_publisher, int32_multinode, static_type_handling and the Fibonacci
-- action server, after any number of rounds of their endless loops and whichever calls fail, each
-- call has had what it needs.
pub looping_programs_lem :
    (rounds : ℕ)
    → SafeRuns (
        complex_msg_publisher rounds
        ∷ int32_multinode rounds
        ∷ static_type_handling rounds
        ∷ fibonacci_action_server rounds
        ∷ [])
looping_programs_lem rounds = (
  verify-runs (complex_msg_publisher rounds) (complex_msg_publisher-verify rounds),
  (
    verify-runs (int32_multinode rounds) (int32_multinode-verify rounds),
    (
      verify-runs (static_type_handling rounds) (static_type_handling-verify rounds),
      (verify-runs (fibonacci_action_server rounds) (fibonacci_action_server-verify rounds), tt),
    ),
  ),
)

abbrev new_action_client : Call
new_action_client =
    init "rclc_action_client_init_default" "fibonacci" (the node ∷ []) (the action_client)

-- The log after support and node are set up, and after the action client is.
abbrev log1 : Log
log1 = (support_init, true) ∷ []

abbrev log2 : Log
log2 = (node_init 0 "fibonacci_action_client_rcl", true) ∷ log1

abbrev log3 : Log
log3 = (new_action_client, true) ∷ log2

-- The log after the executor has failed to be set up, and what is left to do.
abbrev log4 : Log
log4 = (new_executor 0 1, false) ∷ log3

abbrev add_client : Call
add_client = executor_add "rclc_executor_add_action_client" 0 1 (the action_client ∷ [])

abbrev after_adding : ℕ → List Stmt
after_adding rounds =
    check (act "rclc_action_send_goal_request" "" (the action_client ∷ []))
      ∷ repeated rounds (soft (spin_some 0) ∷ [])
    ++ check (fini "rclc_action_client_fini" (the action_client) (the node ∷ []))
      ∷ check (node_fini 0)
      ∷ []

-- The client of the Fibonacci action does not look at what `rclc_executor_init` returns: whenever
-- the three calls before it succeed and it fails, the client is added to an executor that is not
-- set up, whatever the later calls return.
pub fibonacci_action_client_careless :
    (lib : Library) (rounds : ℕ)
    → lib [] support_init ≡ true
    → lib log1 (node_init 0 "fibonacci_action_client_rcl") ≡ true
    → lib log2 new_action_client ≡ true
    → lib log3 (new_executor 0 1) ≡ false
    → is_safe (exec lib (fibonacci_action_client rounds) []).1 ≡ false
unfolding fibonacci_action_client exec is_safe allowed world_after apply
fibonacci_action_client_careless lib rounds a b c d =
    rw (a, b, c, d)
      (elim (Bool-cases (lib log4 add_client)) [
        | inl e ↦ rw e (exec-unsafe lib (after_adding rounds) ((add_client, true) ∷ log4) refl)
        | inr e ↦ rw e refl
      ])
