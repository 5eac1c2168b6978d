-- ===== src/Fibonacci/Tests.antt =====
-- Goals of the Fibonacci action.
use micro_ros_demos.Prelude.{
  ◌≤◌, ◌<◌, ◌≡◌, refl, Bool, true, false, List, [], ◌∷◌, replicate, arith, ltb,
}
use micro_ros_demos.Fibonacci.{
  pos, negsuc, Feedback, succeeded, canceled, aborted, allocated, uninitialised, finished,
  undefined, response, handle_goal, accepted, fibonacci_round, fibonacci_loop, fibonacci_worker,
  send_until_ok,
}
use micro_ros_demos.Fibonacci.Worker.{
  Filled, last, fibonacci_worker_lem, accepted_overflow, aborted_free,
}

-- The result is accepted at the second try.
abbrev second_try : List Bool
second_try = false ∷ true ∷ []

five_numbers :
    fibonacci_worker (pos 5) (replicate 5 9) (λ i. false) false second_try
    ≡ finished
        (response succeeded 5 (0 ∷ 1 ∷ 1 ∷ 2 ∷ 3 ∷ []) allocated (
          (3, 0 ∷ 1 ∷ 1 ∷ 9 ∷ 9 ∷ [])
          ∷ (4, 0 ∷ 1 ∷ 1 ∷ 2 ∷ 9 ∷ [])
          ∷ (5, 0 ∷ 1 ∷ 1 ∷ 2 ∷ 3 ∷ [])
          ∷ []))
        2
unfolding fibonacci_worker fibonacci_loop fibonacci_round send_until_ok
five_numbers = refl

-- A goal of order 6 that is cancelled when the loop looks at index 4.
fibonacci_worker_lem_example :
    (last 6 (replicate 6 9) (λ i. ltb 3 i) true second_try 2 ≤ 47
      → (f : Feedback) × Filled 6 (last 6 (replicate 6 9) (λ i. ltb 3 i) true second_try 2) f
        × (fibonacci_worker (pos 6) (replicate 6 9) (λ i. ltb 3 i) true second_try
            ≡ finished (response canceled 0 [] allocated f.published) 2))
    × (47 < last 6 (replicate 6 9) (λ i. ltb 3 i) true second_try 2
        → fibonacci_worker (pos 6) (replicate 6 9) (λ i. ltb 3 i) true second_try ≡ undefined)
unfolding send_until_ok
fibonacci_worker_lem_example =
    fibonacci_worker_lem 6 (replicate 6 9) (λ i. ltb 3 i) true second_try 2 (omega arith) refl refl

accepted_overflow_example :
    (handle_goal (pos 50) ≡ accepted)
    × (fibonacci_worker (pos 50) (replicate 50 0) (λ j. false) false second_try ≡ undefined)
unfolding send_until_ok
accepted_overflow_example =
    accepted_overflow 50 (replicate 50 0) false second_try 2 (omega arith) (omega arith) refl refl

order_one_free :
    (handle_goal (negsuc 2) ≡ accepted)
    × (fibonacci_worker (negsuc 2) [] (λ j. false) false second_try
        ≡ finished (response aborted 0 [] uninitialised []) 2)
unfolding send_until_ok
order_one_free = aborted_free (negsuc 2) [] (λ j. false) false second_try 2 tt refl
