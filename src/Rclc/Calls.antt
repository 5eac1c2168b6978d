-- ===== src/Rclc/Calls.antt =====
-- The library's functions as calls: what each needs and sets up. Entities are numbered in the order
-- in which a program declares them.
use Prim.Native.String.{String}
use micro_ros_demos.Prelude.{ℕ, [], ◌∷◌}
use micro_ros_demos.Rclc.{
  Call, init, executor_init, executor_add, act, fini, options, support, node, publisher,
  subscription, timer, executor, the, nth,
}

abbrev pub init_options_init : Call
init_options_init = init "rcl_init_options_init" "" [] (the options)

abbrev pub with_options : String → String → Call
with_options f what = act f what (the options ∷ [])

abbrev pub support_init : Call
support_init = init "rclc_support_init" "" [] (the support)

abbrev pub support_init_with_options : Call
support_init_with_options =
    init "rclc_support_init_with_options" "" (the options ∷ []) (the support)

abbrev pub node_init : ℕ → String → Call
node_init i name = init "rclc_node_init_default" name (the support ∷ []) (nth node i)

-- publisher or subscription `i` of node `n`
abbrev pub publisher_init : ℕ → ℕ → String → Call
publisher_init i n topic =
    init "rclc_publisher_init_default" topic (nth node n ∷ []) (nth publisher i)

abbrev pub publisher_init_best_effort : ℕ → ℕ → String → Call
publisher_init_best_effort i n topic =
    init "rclc_publisher_init_best_effort" topic (nth node n ∷ []) (nth publisher i)

abbrev pub subscription_init : ℕ → ℕ → String → Call
subscription_init i n topic =
    init "rclc_subscription_init_default" topic (nth node n ∷ []) (nth subscription i)

abbrev pub subscription_init_best_effort : ℕ → ℕ → String → Call
subscription_init_best_effort i n topic =
    init "rclc_subscription_init_best_effort" topic (nth node n ∷ []) (nth subscription i)

abbrev pub timer_init : ℕ → String → Call
timer_init i period = init "rclc_timer_init_default" period (the support ∷ []) (nth timer i)

-- executor `i` with room for that many handles
abbrev pub new_executor : ℕ → ℕ → Call
new_executor i handles = executor_init i handles (the support ∷ [])

abbrev pub add_timer : ℕ → ℕ → Call
add_timer e i = executor_add "rclc_executor_add_timer" e 1 (nth timer i ∷ [])

abbrev pub add_subscription : ℕ → ℕ → Call
add_subscription e i = executor_add "rclc_executor_add_subscription" e 1 (nth subscription i ∷ [])

abbrev pub spin : ℕ → Call
spin e = act "rclc_executor_spin" "" (nth executor e ∷ [])

abbrev pub spin_some : ℕ → Call
spin_some e = act "rclc_executor_spin_some" "" (nth executor e ∷ [])

abbrev pub publisher_fini : ℕ → ℕ → Call
publisher_fini i n = fini "rcl_publisher_fini" (nth publisher i) (nth node n ∷ [])

abbrev pub subscription_fini : ℕ → ℕ → Call
subscription_fini i n = fini "rcl_subscription_fini" (nth subscription i) (nth node n ∷ [])

abbrev pub node_fini : ℕ → Call
node_fini i = fini "rcl_node_fini" (nth node i) []
