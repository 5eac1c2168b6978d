-- ===== src/AgentPing.antt =====
-- rclc/ping_uros_agent/main.c: its two modes and its timer. The calls that the interactive mode makes
-- behind its loop are in Programs/Nodes.antt.
mod Modes
mod Tests
use Prim.Native.String.{String}
use micro_ros_demos.Prelude.{
  ℕ, zero, suc, ◌+◌, Bool, true, false, List, [], ◌∷◌, ◌++◌, Option, some, none, ◌==◌, ◌&&◌,
  if◌then◌else◌, length,
}
use micro_ros_demos.Rclc.{Call, Stmt, Log, Library, exec, act, the, publisher}
use micro_ros_demos.Programs.Nodes.{ping_uros_agent}

-- `strcmp(a, b) == 0`, of texts up to their NUL
abbrev pub same_text : List ℕ → List ℕ → Bool
same_text [] [] = true
same_text [] (y ∷ ys) = false
same_text (x ∷ xs) [] = false
same_text (x ∷ xs) (y ∷ ys) = x == y && same_text xs ys

abbrev pub basic : List ℕ
basic = b'b' ∷ b'a' ∷ b's' ∷ b'i' ∷ b'c' ∷ []

abbrev pub interactive : List ℕ
interactive = b'i' ∷ b'n' ∷ b't' ∷ b'e' ∷ b'r' ∷ b'a' ∷ b'c' ∷ b't' ∷ b'i' ∷ b'v' ∷ b'e' ∷ []

-- The number of pings is how often `rmw_uros_ping_agent` was called. `waiting` is the loop that asks
-- for the agent.
pub data End : Type 0 where
  returned : ℕ → ℕ → Log → End
  waiting : ℕ → End

abbrev pub usage : End
usage = returned 1 0 []

abbrev pub one_more : Option ℕ → Option ℕ
one_more none = none
one_more (some n) = some (n + 1)

-- The loop: how many pings it takes until one succeeds.
unfoldable pub wait_for_agent : List Bool → Option ℕ
wait_for_agent [] = none
wait_for_agent (ok ∷ pings) =
    let later = one_more (wait_for_agent pings) in if ok then some 1 else later

-- `answers` is what the calls of `rmw_uros_ping_agent` return.
unfoldable pub basic_mode : List Bool → End
basic_mode [] = waiting 0
basic_mode (ok ∷ answers) = returned (if ok then 0 else 1) 1 []

unfoldable pub interactive_mode : Library → List Bool → End
interactive_mode lib answers = elim (wait_for_agent answers) [
  | none ↦ waiting (length answers)
  | some n ↦ let (ok, log) = exec lib ping_uros_agent [] in returned (if ok then 0 else 1) n log
]

-- `argv` without the program's name.
unfoldable pub main : Library → List Bool → List (List ℕ) → End
main lib answers (mode ∷ []) =
    if same_text basic mode
    then basic_mode answers
    else if same_text interactive mode
    then interactive_mode lib answers
    else usage
main lib answers [] = usage
main lib answers (a ∷ b ∷ more) = usage

-- One call of `timer_callback`, which publishes and then pings: the flag is false for `exit(1)`.
unfoldable pub timer_callback : Library → Bool → Bool → Log → Bool × Log
timer_callback lib timer answer log =
    let publish = act "rcl_publish" "ping_uros_agent_topic" (the publisher ∷ []) in
    if timer then (answer, (publish, lib log publish) ∷ log) else (true, log)

-- The calls of the timer in `rclc_executor_spin`, each with its ping's answer, up to an exit.
unfoldable pub ticks : Library → List Bool → Log → Bool × Log
ticks lib [] log = (true, log)
ticks lib (answer ∷ answers) log =
    let (goes_on, after) = timer_callback lib true answer log in
    let rest = ticks lib answers after in if goes_on then rest else (false, after)
