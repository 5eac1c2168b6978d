-- ===== src/Programs/Topics.antt =====
-- Programs that publish or subscribe: rclc/int32_publisher, int32_subscriber,
-- int32_publisher_subscriber, string_publisher, string_subscriber, fragmented_publication,
-- fragmented_subscription, complex_msg_publisher, complex_msg_subscriber, epoch_synchronization,
-- timer, autodiscover_agent and configuration_example.
use micro_ros_demos.Prelude.{ℕ, List, [], ◌∷◌, Bool, false, ◌||◌, ltb, if◌then◌else◌}
use micro_ros_demos.Rclc.{repeated, Stmt, check, soft, Library, Log, exec, act, publisher, the}
use micro_ros_demos.Rclc.Calls.{
  init_options_init, with_options, support_init, support_init_with_options, node_init,
  publisher_init, subscription_init, timer_init, new_executor, add_timer, add_subscription, spin,
  publisher_fini, subscription_fini, node_fini,
}

unfoldable pub int32_publisher : List Stmt
int32_publisher =
    check support_init
    ∷ check (node_init 0 "int32_publisher_rclc")
    ∷ check (publisher_init 0 0 "std_msgs_msg_Int32")
    ∷ check (timer_init 0 "1000 ms")
    ∷ check (new_executor 0 1)
    ∷ check (add_timer 0 0)
    ∷ soft (spin 0)
    ∷ check (publisher_fini 0 0)
    ∷ check (node_fini 0)
    ∷ []

unfoldable pub int32_subscriber : List Stmt
int32_subscriber =
    check support_init
    ∷ check (node_init 0 "int32_subscriber_rclc")
    ∷ check (subscription_init 0 0 "std_msgs_msg_Int32")
    ∷ check (new_executor 0 1)
    ∷ check (add_subscription 0 0)
    ∷ soft (spin 0)
    ∷ check (subscription_fini 0 0)
    ∷ check (node_fini 0)
    ∷ []

unfoldable pub int32_publisher_subscriber : List Stmt
int32_publisher_subscriber =
    check support_init
    ∷ check (node_init 0 "int32_publisher_subscriber_rclc")
    ∷ check (publisher_init 0 0 "int32_publisher")
    ∷ check (subscription_init 0 0 "int32_subscriber")
    ∷ check (timer_init 0 "1000 ms")
    ∷ check (new_executor 0 2)
    ∷ check (add_timer 0 0)
    ∷ check (add_subscription 0 0)
    ∷ soft (spin 0)
    ∷ check (subscription_fini 0 0)
    ∷ check (publisher_fini 0 0)
    ∷ check (node_fini 0)
    ∷ []

unfoldable pub string_publisher : List Stmt
string_publisher =
    check support_init
    ∷ check (node_init 0 "string_node")
    ∷ check (publisher_init 0 0 "/string_publisher")
    ∷ check (timer_init 0 "1000 ms")
    ∷ check (new_executor 0 1)
    ∷ check (add_timer 0 0)
    ∷ soft (spin 0)
    ∷ check (publisher_fini 0 0)
    ∷ check (node_fini 0)
    ∷ []

unfoldable pub string_subscriber : List Stmt
string_subscriber =
    check support_init
    ∷ check (node_init 0 "string_node")
    ∷ check (subscription_init 0 0 "/string_publisher")
    ∷ check (new_executor 0 1)
    ∷ check (add_subscription 0 0)
    ∷ soft (spin 0)
    ∷ check (subscription_fini 0 0)
    ∷ check (node_fini 0)
    ∷ []

unfoldable pub fragmented_publication : List Stmt
fragmented_publication =
    check support_init
    ∷ check (node_init 0 "char_long_sequence_publisher_rcl")
    ∷ check (publisher_init 0 0 "/char_long_sequence")
    ∷ check (timer_init 0 "1000 ms")
    ∷ check (new_executor 0 1)
    ∷ check (add_timer 0 0)
    ∷ soft (spin 0)
    ∷ check (publisher_fini 0 0)
    ∷ check (node_fini 0)
    ∷ []

unfoldable pub fragmented_subscription : List Stmt
fragmented_subscription =
    check support_init
    ∷ check (node_init 0 "char_long_sequence_subscriber_rcl")
    ∷ check (subscription_init 0 0 "/char_long_sequence")
    ∷ check (new_executor 0 1)
    ∷ check (add_subscription 0 0)
    ∷ soft (spin 0)
    ∷ check (subscription_fini 0 0)
    ∷ check (node_fini 0)
    ∷ []

-- with `rounds` rounds of the loop, which never ends
unfoldable pub complex_msg_publisher : ℕ → List Stmt
complex_msg_publisher rounds =
    check support_init
    ∷ check (node_init 0 "complex_message_node")
    ∷ check (publisher_init 0 0 "complex_message")
    ∷ repeated rounds (soft (act "rcl_publish" "" (the publisher ∷ [])) ∷ [])

unfoldable pub complex_msg_subscriber : List Stmt
complex_msg_subscriber =
    check support_init
    ∷ check (node_init 0 "complex_message_node")
    ∷ check (subscription_init 0 0 "complex_message")
    ∷ check (new_executor 0 1)
    ∷ check (add_subscription 0 0)
    ∷ soft (spin 0)
    ∷ check (subscription_fini 0 0)
    ∷ check (node_fini 0)
    ∷ []

unfoldable pub epoch_synchronization : List Stmt
epoch_synchronization =
    check support_init
    ∷ check (node_init 0 "micro_ros_node")
    ∷ check (publisher_init 0 0 "micro_ros_pub")
    ∷ check (timer_init 0 "1000 ms")
    ∷ check (new_executor 0 1)
    ∷ check (add_timer 0 0)
    ∷ soft (spin 0)
    ∷ check (publisher_fini 0 0)
    ∷ check (node_fini 0)
    ∷ []

unfoldable pub timer_demo : List Stmt
timer_demo =
    check support_init
    ∷ check (node_init 0 "timer_node")
    ∷ check (timer_init 0 "1000 ms")
    ∷ check (new_executor 0 1)
    ∷ check (add_timer 0 0)
    ∷ soft (spin 0)
    ∷ check (node_fini 0)
    ∷ []

-- `rmw_uros_discover_agent` returns 1 from main on failure, as RCCHECK does.
unfoldable pub autodiscover_agent : List Stmt
autodiscover_agent =
    check init_options_init
    ∷ check (with_options "rmw_uros_discover_agent" "")
    ∷ check support_init_with_options
    ∷ check (node_init 0 "int32_publisher_rclc")
    ∷ check (publisher_init 0 0 "std_msgs_msg_Int32")
    ∷ check (timer_init 0 "1000 ms")
    ∷ check (new_executor 0 1)
    ∷ check (add_timer 0 0)
    ∷ soft (spin 0)
    ∷ check (publisher_fini 0 0)
    ∷ check (node_fini 0)
    ∷ []

unfoldable pub custom_transports : List Stmt
custom_transports =
    check init_options_init
    ∷ check (with_options "rmw_uros_options_set_client_key" "0xCAFEBABA")
    ∷ check (act "rmw_uros_set_custom_transport" "" [])
    ∷ check support_init_with_options
    ∷ check (node_init 0 "custom_transport_node")
    ∷ check (publisher_init 0 0 "std_msgs_msg_Int32")
    ∷ check (timer_init 0 "1000 ms")
    ∷ check (new_executor 0 1)
    ∷ check (add_timer 0 0)
    ∷ soft (spin 0)
    ∷ check (publisher_fini 0 0)
    ∷ check (node_fini 0)
    ∷ []

unfoldable pub configured_publisher : List Stmt
configured_publisher =
    check init_options_init
    ∷ check (with_options "rmw_uros_options_set_udp_address" "")
    ∷ check (with_options "rmw_uros_options_set_client_key" "0xCAFEBABA")
    ∷ check (with_options "rcl_init_options_set_domain_id" "")
    ∷ check support_init_with_options
    ∷ check (node_init 0 "int32_configured_publisher_rclc")
    ∷ check (publisher_init 0 0 "std_msgs_msg_Int32")
    ∷ check (timer_init 0 "1000 ms")
    ∷ check (new_executor 0 1)
    ∷ check (add_timer 0 0)
    ∷ soft (spin 0)
    ∷ check (publisher_fini 0 0)
    ∷ check (node_fini 0)
    ∷ []

unfoldable pub configured_subscriber : List Stmt
configured_subscriber =
    check init_options_init
    ∷ check (with_options "rmw_uros_options_set_udp_address" "")
    ∷ check (with_options "rmw_uros_options_set_client_key" "0xCAFEBABE")
    ∷ check (with_options "rcl_init_options_set_domain_id" "")
    ∷ check support_init_with_options
    ∷ check (node_init 0 "int32_configured_subscriber_rclc")
    ∷ check (subscription_init 0 0 "std_msgs_msg_Int32")
    ∷ check (new_executor 0 1)
    ∷ check (add_subscription 0 0)
    ∷ soft (spin 0)
    ∷ check (subscription_fini 0 0)
    ∷ check (node_fini 0)
    ∷ []

-- Both configured programs return 1 at once for a wrong number of arguments.
unfoldable pub configured_main : Library → ℕ → List Stmt → Bool × Log
configured_main lib argc p = if ltb argc 3 || ltb 4 argc then (false, []) else exec lib p []
