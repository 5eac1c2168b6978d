-- ===== src/Fibonacci.antt =====
-- rclc/fibonacci_action_server/main.c: the goal handler and the worker thread of a goal. What other
-- threads do, the flag `goal_cancelled` and the results of the library's calls, are arguments.
pub mod Worker
pub mod Numbers
mod Tests
use micro_ros_demos.Prelude.{
  ℕ, zero, suc, ◌+◌, ◌-◌, ◌^◌, Bool, true, false, not, List, [], ◌∷◌, ◌++◌, Option, some, none,
  if◌then◌else◌, ltb, length, get_elem?, set,
}
pub use micro_ros_demos.Prelude.Int.{ℤ, pos, negsuc}

pub data GoalState : Type 0 where
  succeeded canceled aborted : GoalState

-- `accepted` has also started a thread that runs `fibonacci_worker` on the goal.
pub data GoalReply : Type 0 where
  rejected accepted : GoalReply

-- An `int32_t order` is an integer.
unfoldable pub handle_goal : ℤ → GoalReply
handle_goal (pos n) = if ltb 200 n then rejected else accepted
handle_goal (negsuc n) = accepted

-- `handle_cancel` accepts every request.
unfoldable pub handle_cancel : Bool
handle_cancel = true

-- `feedback.sequence` and the feedback messages published so far, each with the size and the array
-- of the time, oldest first.
pub record Feedback : Type 0 where
  pub size : ℕ
  pub elements : List ℕ
  pub published : List (ℕ × List ℕ)

-- The sum of two int32_t that are not negative; past INT32_MAX it is undefined.
abbrev pub add_i32 : ℕ → ℕ → Option ℕ
add_i32 a b = if ltb (a + b) (2 ^ 31) then some (a + b) else none

abbrev pub appended : Feedback → ℕ → ℕ → Feedback
appended f i c = record {
  size = f.size + 1;
  elements = set f.elements i c;
  published = f.published ++ ((f.size + 1, set f.elements i c) ∷ []);
}

-- `data[i] = data[i - 1] + data[i - 2]`, `size++` and the publication. `none` is an access out of
-- range or an overflow.
unfoldable pub fibonacci_round : ℕ → Feedback → Option Feedback
fibonacci_round i f = elim (get_elem? f.elements (i - 1)) [
  | none ↦ none
  | some a ↦ elim (get_elem? f.elements (i - 2)) [
    | none ↦ none
    | some b ↦ elim (add_i32 a b) [
      | none ↦ none
      | some c ↦ if ltb i (length f.elements) then some (appended f i c) else none
    ]
  ]
]

-- The loop from index `i` on with `left` indices left: `cancelled i` is what the test at `i` reads.
unfoldable pub fibonacci_loop : (ℕ → Bool) → ℕ → ℕ → Feedback → Option Feedback
fibonacci_loop cancelled zero i f = some f
fibonacci_loop cancelled (suc left) i f = elim (cancelled i) [
  | true ↦ some f
  | false ↦ elim (fibonacci_round i f) [
    | none ↦ none
    | some f' ↦ fibonacci_loop cancelled left (i + 1) f'
  ]
]

-- How many times `rclc_action_send_result` is called until it returns RCL_RET_OK.
unfoldable pub send_until_ok : List Bool → ℕ → Option ℕ
send_until_ok [] tries = none
send_until_ok (ok ∷ results) tries =
    let rest = send_until_ok results (tries + 1) in if ok then some (tries + 1) else rest

-- The array that `free` is given at the end.
pub data Freed : Type 0 where
  allocated uninitialised : Freed

pub record Response : Type 0 where
  pub goal_state : GoalState
  pub size : ℕ
  pub elements : List ℕ
  pub freed : Freed
  pub published : List (ℕ × List ℕ)

pub data WorkerEnd : Type 0 where
  -- the response and how often it was sent
  finished : Response → ℕ → WorkerEnd
  still_sending : WorkerEnd
  undefined : WorkerEnd

abbrev pub send : List Bool → Response → WorkerEnd
send results r = elim (send_until_ok results 0) [ none ↦ still_sending | some n ↦ finished r n ]

abbrev pub response : GoalState → ℕ → List ℕ → Freed → List (ℕ × List ℕ) → Response
response g n xs d p = record { goal_state = g; size = n; elements = xs; freed = d; published = p }

-- `memory` is what `malloc` gives for `order` numbers, `cancelled_after` what the test behind the
-- loop reads, `results` what the calls of `rclc_action_send_result` return.
unfoldable pub fibonacci_worker : ℤ → List ℕ → (ℕ → Bool) → Bool → List Bool → WorkerEnd
fibonacci_worker (negsuc n) memory cancelled cancelled_after results =
    send results (response aborted 0 [] uninitialised [])
fibonacci_worker (pos n) memory cancelled cancelled_after results =
    if ltb n 2
    then send results (response aborted 0 [] uninitialised [])
    else elim (fibonacci_loop cancelled (n - 2) 2
        (record { size = 2; elements = set (set memory 0 0) 1 1; published = [] })) [
          | none ↦ undefined
          | some f ↦
              if cancelled_after
              then send results (response canceled 0 [] allocated f.published)
              else send results (response succeeded f.size f.elements allocated f.published)
        ]
