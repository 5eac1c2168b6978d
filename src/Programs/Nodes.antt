-- ===== src/Programs/Nodes.antt =====
-- The remaining programs: rclc/int32_multinode, multithread_publisher_subscriber, ping_pong,
-- ping_uros_agent (its interactive mode), graph_introspection/publisher_count and
-- subscription_count, static_type_handling, and transport_init of
-- rclc/ping_pong_sel4/ping_pong_component.c.
use micro_ros_demos.Prelude.{ℕ, List, [], ◌∷◌}
use micro_ros_demos.Rclc.{
  repeated, Call, Stmt, check, soft, act, fini, support, timer, executor, the,
}
use micro_ros_demos.Rclc.Calls.{
  support_init, node_init, publisher_init, publisher_init_best_effort, subscription_init,
  subscription_init_best_effort, timer_init, new_executor, add_timer, add_subscription, spin,
  spin_some, publisher_fini, subscription_fini, node_fini,
}

-- with `rounds` rounds of the main loop, which never ends
unfoldable pub int32_multinode : ℕ → List Stmt
int32_multinode rounds =
    check support_init
    ∷ check (node_init 0 "int32_node_1")
    ∷ check (publisher_init 0 0 "node_1_to_2")
    ∷ check (subscription_init 0 0 "node_2_to_1")
    ∷ check (timer_init 0 "1000 ms")
    ∷ check (new_executor 0 2)
    ∷ check (add_timer 0 0)
    ∷ check (add_subscription 0 0)
    ∷ check (node_init 1 "int32_node_2")
    ∷ check (publisher_init 1 1 "node_2_to_1")
    ∷ check (subscription_init 1 1 "node_1_to_2")
    ∷ check (timer_init 1 "1000 ms")
    ∷ check (new_executor 1 2)
    ∷ check (add_timer 1 1)
    ∷ check (add_subscription 1 1)
    ∷ repeated rounds (soft (spin_some 0) ∷ soft (spin_some 1) ∷ [])

-- A failure to allocate the subscriber's message also returns 1 from main.
unfoldable pub multithread_publisher_subscriber : List Stmt
multithread_publisher_subscriber =
    check support_init
    ∷ check (node_init 0 "multithread_node")
    ∷ check (publisher_init 0 0 "multithread_topic")
    ∷ check (publisher_init 1 0 "multithread_topic")
    ∷ check (publisher_init 2 0 "multithread_topic")
    ∷ check (subscription_init 0 0 "multithread_topic")
    ∷ check (act "micro_ros_utilities_create_message_memory" "recv_msg" [])
    ∷ check (new_executor 0 1)
    ∷ check (add_subscription 0 0)
    ∷ check (act "rclc_executor_set_timeout" "100 ms" (the executor ∷ []))
    ∷ soft (spin 0)
    ∷ check (subscription_fini 0 0)
    ∷ check (publisher_fini 0 0)
    ∷ check (publisher_fini 1 0)
    ∷ check (publisher_fini 2 0)
    ∷ check (node_fini 0)
    ∷ []

unfoldable pub ping_pong : List Stmt
ping_pong =
    check support_init
    ∷ check (node_init 0 "pingpong_node")
    ∷ check (publisher_init 0 0 "/microROS/ping")
    ∷ check (publisher_init_best_effort 1 0 "/microROS/pong")
    ∷ check (subscription_init_best_effort 0 0 "/microROS/ping")
    ∷ check (subscription_init_best_effort 1 0 "/microROS/pong")
    ∷ check (timer_init 0 "2000 ms")
    ∷ check (new_executor 0 3)
    ∷ check (add_timer 0 0)
    ∷ check (add_subscription 0 0)
    ∷ check (add_subscription 0 1)
    ∷ soft (spin 0)
    ∷ check (publisher_fini 0 0)
    ∷ check (publisher_fini 1 0)
    ∷ check (subscription_fini 0 0)
    ∷ check (subscription_fini 1 0)
    ∷ check (node_fini 0)
    ∷ []

-- from the point where the agent has answered
unfoldable pub ping_uros_agent : List Stmt
ping_uros_agent =
    check support_init
    ∷ check (node_init 0 "ping_uros_agent_publisher")
    ∷ check (publisher_init 0 0 "ping_uros_agent_topic")
    ∷ check (timer_init 0 "1000 ms")
    ∷ check (new_executor 0 1)
    ∷ check (add_timer 0 0)
    ∷ soft (spin 0)
    ∷ soft (publisher_fini 0 0)
    ∷ soft (fini "rcl_timer_fini" (the timer) [])
    ∷ soft (fini "rclc_executor_fini" (the executor) [])
    ∷ soft (node_fini 0)
    ∷ soft (fini "rclc_support_fini" (the support) [])
    ∷ []

unfoldable pub publisher_count : List Stmt
publisher_count =
    check support_init
    ∷ check (node_init 0 "publisher_count_node")
    ∷ check (subscription_init_best_effort 0 0 "parameter_events")
    ∷ check (timer_init 0 "1000 ms")
    ∷ check (new_executor 0 1)
    ∷ check (add_timer 0 0)
    ∷ soft (spin 0)
    ∷ check (subscription_fini 0 0)
    ∷ check (node_fini 0)
    ∷ []

unfoldable pub subscription_count : List Stmt
subscription_count =
    check support_init
    ∷ check (node_init 0 "subscription_count_node")
    ∷ check (publisher_init_best_effort 0 0 "parameter_events")
    ∷ check (timer_init 0 "1000 ms")
    ∷ check (new_executor 0 1)
    ∷ check (add_timer 0 0)
    ∷ soft (spin 0)
    ∷ check (publisher_fini 0 0)
    ∷ check (node_fini 0)
    ∷ []

-- RCCHECK of this program stops in `error_loop`. The calls of the type utilities, which only
-- fill its messages, are left out. Its loop, which never ends, has `rounds` rounds.
unfoldable pub static_type_handling : ℕ → List Stmt
static_type_handling rounds =
    check support_init
    ∷ check (node_init 0 "micro_ros_node")
    ∷ check (publisher_init 0 0 "micro_ros_publisher")
    ∷ check (timer_init 0 "1000 ms")
    ∷ check (new_executor 0 1)
    ∷ check (add_timer 0 0)
    ∷ repeated rounds (soft (spin_some 0) ∷ [])

abbrev pub set_custom_transport : Call
set_custom_transport = act "rmw_uros_set_custom_transport" "" []

-- RCCHECK of this program is exit(1).
abbrev pub transport_calls : List Stmt
transport_calls =
    check support_init
    ∷ check (node_init 0 "pingpong_node")
    ∷ check (publisher_init_best_effort 0 0 "/microROS/ping")
    ∷ check (publisher_init_best_effort 1 0 "/microROS/pong")
    ∷ check (subscription_init_best_effort 0 0 "/microROS/ping")
    ∷ check (subscription_init_best_effort 1 0 "/microROS/pong")
    ∷ check (new_executor 0 3)
    ∷ check (add_subscription 0 0)
    ∷ check (add_subscription 0 1)
    ∷ []

-- A failure to set the transport returns.
unfoldable pub transport_init : List Stmt
transport_init = check set_custom_transport ∷ transport_calls
