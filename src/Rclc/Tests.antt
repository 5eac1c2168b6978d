-- ===== src/Rclc/Tests.antt =====
-- Runs of small programs.
use micro_ros_demos.Prelude.{◌≡◌, refl, true, false, List, [], ◌∷◌}
use micro_ros_demos.Rclc.{
  Stmt, check, soft, Library, exec, verify, is_safe, world_after, allowed, apply,
}
use micro_ros_demos.Rclc.Calls.{support_init, node_init, publisher_init, node_fini}
use micro_ros_demos.Rclc.Runs.{verify-exec, exec-Ends, Ends}

abbrev small_program : List Stmt
small_program =
    check support_init
    ∷ check (node_init 0 "node")
    ∷ check (publisher_init 0 0 "topic")
    ∷ soft (node_fini 0)
    ∷ []

-- Lets the third call fail.
abbrev third_fails : Library
third_fails log c = elim log [ [] ↦ true | x ∷ xs ↦ elim xs [ [] ↦ true | y ∷ ys ↦ false ] ]

verify-exec_example : is_safe (exec third_fails small_program []).1 ≡ true
unfolding is_safe verify world_after allowed apply
verify-exec_example = verify-exec third_fails small_program [] refl refl

run-Ends : Ends small_program [] (exec third_fails small_program [])
run-Ends = exec-Ends third_fails small_program []
