-- ===== src/Programs/Services.antt =====
-- Programs that offer or use a service, an action or parameters: rclc/addtwoints_client,
-- addtwoints_server, fibonacci_action_client, fibonacci_action_server and parameter_server.
use micro_ros_demos.Prelude.{◌++◌, ℕ, ◌+◌, List, [], ◌∷◌}
use micro_ros_demos.Rclc.{
  repeated, Stmt, check, soft, init, executor_add, act, fini, support, node, client, service,
  action_client, action_server, param_server, the,
}
use micro_ros_demos.Rclc.Calls.{
  support_init, node_init, publisher_init, timer_init, new_executor, add_timer, spin, spin_some,
  publisher_fini, node_fini,
}

unfoldable pub addtwoints_client : List Stmt
addtwoints_client =
    check support_init
    ∷ check (node_init 0 "add_twoints_client_rclc")
    ∷ check (init "rclc_client_init_default" "/addtwoints" (the node ∷ []) (the client))
    ∷ check (new_executor 0 1)
    ∷ check (executor_add "rclc_executor_add_client" 0 1 (the client ∷ []))
    ∷ check (act "rcl_send_request" "" (the client ∷ []))
    ∷ soft (spin 0)
    ∷ check (fini "rcl_client_fini" (the client) (the node ∷ []))
    ∷ check (node_fini 0)
    ∷ []

-- RCCHECK of this program prints "Aborting" and goes on: its main returns nothing.
unfoldable pub addtwoints_server : List Stmt
addtwoints_server =
    soft support_init
    ∷ soft (node_init 0 "add_twoints_server_rclc")
    ∷ soft (init "rclc_service_init_default" "/addtwoints" (the node ∷ []) (the service))
    ∷ soft (new_executor 0 1)
    ∷ soft (executor_add "rclc_executor_add_service" 0 1 (the service ∷ []))
    ∷ soft (spin 0)
    ∷ soft (fini "rcl_service_fini" (the service) (the node ∷ []))
    ∷ soft (node_fini 0)
    ∷ []

-- The result of `rclc_executor_init` is dropped. The goal is completed after `rounds` rounds
-- of the loop.
unfoldable pub fibonacci_action_client : ℕ → List Stmt
fibonacci_action_client rounds =
    check support_init
      ∷ check (node_init 0 "fibonacci_action_client_rcl")
      ∷ check
          (init "rclc_action_client_init_default" "fibonacci" (the node ∷ []) (the action_client))
      ∷ soft (new_executor 0 1)
      ∷ check (executor_add "rclc_executor_add_action_client" 0 1 (the action_client ∷ []))
      ∷ check (act "rclc_action_send_goal_request" "" (the action_client ∷ []))
      ∷ repeated rounds (soft (spin_some 0) ∷ [])
    ++ check (fini "rclc_action_client_fini" (the action_client) (the node ∷ []))
      ∷ check (node_fini 0)
      ∷ []

-- with `rounds` rounds of the loop, which never ends
unfoldable pub fibonacci_action_server : ℕ → List Stmt
fibonacci_action_server rounds =
    check support_init
    ∷ check (node_init 0 "fibonacci_action_server_rcl")
    ∷ check (
        init "rclc_action_server_init_default" "fibonacci" (the node ∷ the support ∷ [])
          (the action_server))
    ∷ check (new_executor 0 1)
    ∷ check (executor_add "rclc_executor_add_action_server" 0 1 (the action_server ∷ []))
    ∷ repeated rounds (soft (spin_some 0) ∷ [])

-- `handles` is RCLC_EXECUTOR_PARAMETER_SERVER_HANDLES. The results of
-- `rclc_parameter_server_init_default` and of the calls that add, describe and set the parameters
-- are dropped.
unfoldable pub parameter_server : ℕ → List Stmt
parameter_server handles =
    check support_init
    ∷ check (node_init 0 "micro_ros_node")
    ∷ check (publisher_init 0 0 "micro_ros_pub")
    ∷ soft (init "rclc_parameter_server_init_default" "" (the node ∷ []) (the param_server))
    ∷ check (timer_init 0 "1000 ms")
    ∷ check (new_executor 0 (handles + 1))
    ∷ check (executor_add "rclc_executor_add_parameter_server" 0 handles (the param_server ∷ []))
    ∷ check (add_timer 0 0)
    ∷ soft (act "rclc_add_parameter" "publish_toogle" (the param_server ∷ []))
    ∷ soft (act "rclc_add_parameter" "publish_rate_ms" (the param_server ∷ []))
    ∷ soft (act "rclc_add_parameter_description" "publish_toogle" (the param_server ∷ []))
    ∷ soft (act "rclc_add_parameter_description" "publish_rate_ms" (the param_server ∷ []))
    ∷ soft (act "rclc_parameter_set_bool" "publish_toogle" (the param_server ∷ []))
    ∷ soft (act "rclc_parameter_set_int" "publish_rate_ms" (the param_server ∷ []))
    ∷ soft (spin 0)
    ∷ check (publisher_fini 0 0)
    ∷ check (node_fini 0)
    ∷ []
