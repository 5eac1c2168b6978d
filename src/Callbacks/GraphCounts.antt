-- ===== src/Callbacks/GraphCounts.antt =====
-- rclc/graph_introspection/publisher_count/main.c and subscription_count/main.c: the timer asks
-- for the same count in two ways. The timer of rclc/static_type_handling/main.c publishes two
-- messages.
mod Stale
mod Tests
use micro_ros_demos.Prelude.{
  ℕ, Bool, true, false, List, [], ◌∷◌, ◌++◌, Option, some, none, if◌then◌else◌,
}

-- The message of RCSOFTCHECK, and the lines with the numbers of the two ways.
pub data Line : Type 0 where
  failed_status : Line
  by_handle : ℕ → Line
  by_topic : ℕ → Line

-- A query fails, or stores its answer in the variable.
abbrev pub stored : Option ℕ → ℕ → ℕ
stored none count = count
stored (some n) count = n

abbrev pub status : Option ℕ → List Line
status none = failed_status ∷ []
status (some n) = []

-- The lines of a call; the same variable holds both answers. The two programs differ in what they
-- ask.
unfoldable pub count_callback : Option ℕ → Option ℕ → List Line
count_callback handle topic =
    let first = stored handle 0 in
    let second = stored topic first in
    status handle ++ (by_handle first ∷ (status topic ++ (by_topic second ∷ [])))

unfoldable pub publisher_count_callback : Option ℕ → Option ℕ → List Line
unfolding count_callback
publisher_count_callback handle topic = count_callback handle topic

unfoldable pub subscription_count_callback : Option ℕ → Option ℕ → List Line
unfolding count_callback
subscription_count_callback handle topic = count_callback handle topic

-- What the timer of static_type_handling publishes of `msg` and `msg_static`.
unfoldable pub static_timer_callback {ℓ} : {M : Type ℓ} → Bool → M → M → Bool → Bool → List M
static_timer_callback timer msg msg_static ok ok_static =
    if timer
    then (if ok then msg ∷ [] else []) ++ (if ok_static then msg_static ∷ [] else [])
    else []
