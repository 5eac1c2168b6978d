-- ===== src/FibonacciClient/Tests.antt =====
-- A goal of order 4, and what the callbacks do otherwise.
use micro_ros_demos.Prelude.{◌≡◌, refl, true, false, List, [], ◌∷◌, ◌++◌, replicate, arith}
use micro_ros_demos.Fibonacci.{
  pos, send_until_ok, handle_goal, fibonacci_worker, fibonacci_loop, fibonacci_round,
}
use micro_ros_demos.FibonacciClient.{
  goal_request_callback, cancel_request_callback, left, Notice, goal_response, feedback, result,
  wait_for_goal, at_start,
}
use micro_ros_demos.FibonacciClient.Goal.{accepted_line, feedback_lines, result_line, goal_lem}
use micro_ros_demos.Fibonacci.{succeeded}

rejected_completes : (goal_request_callback (pos 300) false at_start).goal_completed ≡ true
unfolding goal_request_callback
rejected_completes = refl

cancelled_completes : (cancel_request_callback (pos 4) true at_start).goal_completed ≡ true
unfolding cancel_request_callback
cancelled_completes = refl

-- The answer comes with the first feedback, and the rest two rounds later.
abbrev batches : List (List Notice)
batches =
    (goal_response true ∷ feedback (3, 0 ∷ 1 ∷ 1 ∷ 9 ∷ []) ∷ [])
    ∷ []
    ∷ (feedback (4, 0 ∷ 1 ∷ 1 ∷ 2 ∷ []) ∷ result succeeded (4, 0 ∷ 1 ∷ 1 ∷ 2 ∷ []) ∷ [])
    ∷ []

goal_lem_example :
    wait_for_goal (pos 4) batches at_start
    ≡ left (record {
      goal_completed = true;
      printed = accepted_line (pos 4) ++ (feedback_lines (pos 4) 2 3 ++ result_line (pos 4) 4);
    })
unfolding handle_goal fibonacci_worker fibonacci_loop fibonacci_round send_until_ok
goal_lem_example =
    goal_lem 4 (replicate 4 9) (false ∷ true ∷ []) 2 batches (omega arith) (omega arith) refl refl
      refl
