-- ===== src/Callbacks/Counting.antt =====
-- The programs that publish a counter, rclc/int32_publisher and its like, and
-- rclc/int32_multinode/main.c, in which two nodes do so and also print what they receive.
pub mod Runs
mod Tests
use micro_ros_demos.Prelude.{
  ℕ, ◌+◌, ◌^◌, Bool, true, false, List, [], ◌∷◌, ◌++◌, Option, some, none, ltb, if◌then◌else◌,
}

-- What a node prints: the message of RCSOFTCHECK, and the numbers sent and received.
pub data Line : Type 0 where
  failed_status : Line
  sent : ℕ → Line
  received : ℕ → Line

-- `send_msg.data`, which starts at 0 and only grows, what the library took from `rcl_publish`, and
-- what was printed.
pub record Node : Type 0 where
  pub value : ℕ
  pub wire : List ℕ
  pub lines : List Line

abbrev pub fresh : Node
fresh = record { value = 0; wire = []; lines = [] }

-- `ok` says whether `rcl_publish` succeeds; a failure is printed and the callback goes on. `none` is
-- the overflow of the int32_t counter.
unfoldable pub timer_callback : Bool → Bool → Node → Option Node
timer_callback timer ok n =
    if timer
    then if ltb (n.value + 1) (2 ^ 31)
      then some (record {
        value = n.value + 1;
        wire = n.wire ++ (if ok then n.value ∷ [] else []);
        lines = n.lines ++ (if ok then sent n.value ∷ [] else failed_status ∷ sent n.value ∷ []);
      })
      else none
    else some n

unfoldable pub subscription_callback : ℕ → Node → Node
subscription_callback x n = record n { lines = n.lines ++ (received x ∷ []) }

-- What the executor hands to a node.
pub data Event : Type 0 where
  tick : Bool → Bool → Event
  message : ℕ → Event

unfoldable pub handle : Event → Node → Option Node
unfolding timer_callback subscription_callback
handle (tick timer ok) n = timer_callback timer ok n
handle (message x) n = some (subscription_callback x n)

unfoldable pub run : List Event → Node → Option Node
unfolding handle
run [] n = some n
run (e ∷ es) n = elim (handle e n) [ none ↦ none | some n' ↦ run es n' ]

-- The globals of int32_multinode. The lines of each node are told apart by what they start with.
pub record Nodes : Type 0 where
  pub first : Node
  pub second : Node

unfoldable pub timer_callback_1 : Bool → Bool → Nodes → Option Nodes
unfolding timer_callback
timer_callback_1 timer ok s = elim (timer_callback timer ok s.first) [
  | none ↦ none
  | some n ↦ some (record s { first = n })
]

unfoldable pub subscription_callback_1 : ℕ → Nodes → Nodes
unfolding subscription_callback
subscription_callback_1 x s = record s { first = subscription_callback x s.first }

unfoldable pub timer_callback_2 : Bool → Bool → Nodes → Option Nodes
unfolding timer_callback
timer_callback_2 timer ok s = elim (timer_callback timer ok s.second) [
  | none ↦ none
  | some n ↦ some (record s { second = n })
]

unfoldable pub subscription_callback_2 : ℕ → Nodes → Nodes
unfolding subscription_callback
subscription_callback_2 x s = record s { second = subscription_callback x s.second }

pub data NodesEvent : Type 0 where
  to_first : Event → NodesEvent
  to_second : Event → NodesEvent

unfoldable pub handle_nodes : NodesEvent → Nodes → Option Nodes
handle_nodes (to_first (tick timer ok)) s = timer_callback_1 timer ok s
handle_nodes (to_first (message x)) s = some (subscription_callback_1 x s)
handle_nodes (to_second (tick timer ok)) s = timer_callback_2 timer ok s
handle_nodes (to_second (message x)) s = some (subscription_callback_2 x s)

-- Two executors that main spins in turns, whatever comes to each and in any order.
unfoldable pub run_nodes : List NodesEvent → Nodes → Option Nodes
run_nodes [] s = some s
run_nodes (e ∷ es) s = elim (handle_nodes e s) [ none ↦ none | some s' ↦ run_nodes es s' ]

-- The same timer stands in more programs.
unfoldable pub publisher_timer_callback : Bool → Bool → Node → Option Node
unfolding timer_callback
publisher_timer_callback timer ok n = timer_callback timer ok n

unfoldable pub configured_timer_callback : Bool → Bool → Node → Option Node
unfolding timer_callback
configured_timer_callback timer ok n = timer_callback timer ok n

unfoldable pub autodiscover_timer_callback : Bool → Bool → Node → Option Node
unfolding timer_callback
autodiscover_timer_callback timer ok n = timer_callback timer ok n

unfoldable pub custom_timer_callback : Bool → Bool → Node → Option Node
unfolding timer_callback
custom_timer_callback timer ok n = timer_callback timer ok n

-- The programs that only receive have the callback too.
unfoldable pub subscriber_callback : ℕ → Node → Node
unfolding subscription_callback
subscriber_callback x n = subscription_callback x n

unfoldable pub configured_subscription_callback : ℕ → Node → Node
unfolding subscription_callback
configured_subscription_callback x n = subscription_callback x n
