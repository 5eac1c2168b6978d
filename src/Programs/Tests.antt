-- ===== src/Programs/Tests.antt =====
-- Runs in which an executor cannot be set up, and runs of loops.
use micro_ros_demos.Prelude.{◌≡◌, refl, true, false, []}
use micro_ros_demos.Rclc.{init, executor_init, executor_add, act, fini, Library, exec, is_safe}
use micro_ros_demos.Programs.Services.{fibonacci_action_client, fibonacci_action_server}
use micro_ros_demos.Programs.Topics.{complex_msg_publisher}
use micro_ros_demos.Programs.Nodes.{int32_multinode, static_type_handling}
use micro_ros_demos.Programs.Runs.{fibonacci_action_client_careless, looping_programs_lem}

-- Lets `rclc_executor_init` fail and everything else succeed.
abbrev no_executor : Library
no_executor log (executor_init i handles needs) = false
no_executor log (init f what needs e) = true
no_executor log (executor_add f i handles needs) = true
no_executor log (act f what needs) = true
no_executor log (fini f e needs) = true

no_executor_careless : is_safe (exec no_executor (fibonacci_action_client 3) []).1 ≡ false
no_executor_careless = fibonacci_action_client_careless no_executor 3 refl refl refl refl

two_rounds :
    ((lib : Library) → is_safe (exec lib (complex_msg_publisher 2) []).1 ≡ true)
    × (((lib : Library) → is_safe (exec lib (int32_multinode 2) []).1 ≡ true)
        × (((lib : Library) → is_safe (exec lib (static_type_handling 2) []).1 ≡ true)
            × (((lib : Library) → is_safe (exec lib (fibonacci_action_server 2) []).1 ≡ true)
                × Unit {0})))
two_rounds = looping_programs_lem 2
