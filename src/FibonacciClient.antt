-- ===== src/FibonacciClient.antt =====
-- rclc/fibonacci_action_client/main.c: the callbacks of the goal and the loop that waits for it. Its
-- set-up calls are in Programs/Services.antt, and what the executor delivers is an argument.
mod Goal
mod Tests
use Prim.Native.String.{String}
use micro_ros_demos.Prelude.{
  ℕ, zero, suc, ◌+◌, Bool, true, false, List, [], ◌∷◌, ◌++◌, Option, some, none, if◌then◌else◌,
  get_elem?,
}
use micro_ros_demos.Fibonacci.{ℤ, pos, GoalState, succeeded, canceled, aborted}

-- A part of what a `printf` writes.
pub data Out : Type 0 where
  text : String → Out
  int : ℤ → Out

-- The global `goal_completed`, and all that was printed.
pub record Client : Type 0 where
  pub goal_completed : Bool
  pub printed : List Out

abbrev pub print : List Out → Client → Client
print out c = record c { printed = c.printed ++ out }

-- `request->goal.order` is the argument of each callback.
unfoldable pub goal_request_callback : ℤ → Bool → Client → Client
goal_request_callback order accepted c =
    let said =
      print
        (text "Goal request (order: "
          ∷ int order
          ∷ text "): "
          ∷ text (if accepted then "Accepted" else "Rejected")
          ∷ text "\n"
          ∷ [])
        c in
    if accepted then said else record said { goal_completed = true }

-- `printf("%d ", data[i])` for `left` indices from `i` on, of numbers that are not negative.
-- `none` is a read beyond the array.
unfoldable pub print_sequence : ℕ → ℕ → List ℕ → Client → Option Client
print_sequence zero i elements c = some c
print_sequence (suc left) i elements c = elim (get_elem? elements i) [
  | none ↦ none
  | some x ↦ print_sequence left (i + 1) elements (print (int (pos x) ∷ text " " ∷ []) c)
]

abbrev pub close_list : Option Client → Option Client
close_list none = none
close_list (some c) = some (print (text "\u{8}]\n" ∷ []) c)

-- The sequence is its size and its array.
unfoldable pub feedback_callback : ℤ → ℕ × List ℕ → Client → Option Client
feedback_callback order (size, elements) c = close_list (
    print_sequence size 0 elements
      (print (text "Goal Feedback (order: " ∷ int order ∷ text ") [" ∷ []) c))

abbrev pub complete : Option Client → Option Client
complete none = none
complete (some c) = some (record c { goal_completed = true })

unfoldable pub result_request_callback : ℤ → GoalState → ℕ × List ℕ → Client → Option Client
result_request_callback order status (size, elements) c =
    let opened = print (text "Goal Result (order: " ∷ int order ∷ text ") [" ∷ []) c in
    complete (
      close_list (elim status [
        | succeeded ↦ print_sequence size 0 elements opened
        | canceled ↦ some (print (text "CANCELED " ∷ []) opened)
        | aborted ↦ some (print (text "ABORTED " ∷ []) opened)
      ]))

unfoldable pub cancel_request_callback : ℤ → Bool → Client → Client
cancel_request_callback order cancelled c =
    let said =
      print
        (text "Goal cancel request (order: "
          ∷ int order
          ∷ text "): "
          ∷ text (if cancelled then "Accepted" else "Rejected")
          ∷ text "\n"
          ∷ [])
        c in
    if cancelled then record said { goal_completed = true } else said

-- What the executor calls a callback for.
pub data Notice : Type 0 where
  goal_response : Bool → Notice
  feedback : ℕ × List ℕ → Notice
  result : GoalState → ℕ × List ℕ → Notice
  cancel_response : Bool → Notice

unfoldable pub deliver : ℤ → Notice → Client → Option Client
deliver order (goal_response accepted) c = some (goal_request_callback order accepted c)
deliver order (feedback sequence) c = feedback_callback order sequence c
deliver order (result status sequence) c = result_request_callback order status sequence c
deliver order (cancel_response cancelled) c = some (cancel_request_callback order cancelled c)

-- One call of `rclc_executor_spin_some`.
unfoldable pub spin_some : ℤ → List Notice → Client → Option Client
spin_some order [] c = some c
spin_some order (n ∷ ns) c = elim (deliver order n c) [
  | none ↦ none
  | some c' ↦ spin_some order ns c'
]

pub data LoopEnd : Type 0 where
  left : Client → LoopEnd
  waiting : Client → LoopEnd
  out_of_bounds : LoopEnd

-- `while (!goal_completed)`: each entry is what one round delivers.
unfoldable pub wait_for_goal : ℤ → List (List Notice) → Client → LoopEnd
wait_for_goal order [] c = if c.goal_completed then left c else waiting c
wait_for_goal order (ns ∷ rounds) c = elim c.goal_completed [
  | true ↦ left c
  | false ↦ elim (spin_some order ns c) [
    | none ↦ out_of_bounds
    | some c' ↦ wait_for_goal order rounds c'
  ]
]

abbrev pub at_start : Client
at_start = record { goal_completed = false; printed = [] }

-- `goal_order`
abbrev pub goal_order : ℕ
goal_order = 10
