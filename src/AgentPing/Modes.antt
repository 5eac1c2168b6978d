-- ===== src/AgentPing/Modes.antt =====
-- What each mode does with the answers to its pings.
use micro_ros_demos.Prelude.{
  ℕ, zero, suc, ◌+◌, ◌≡◌, ◌∙◌, refl, ap, Bool, true, false, List, [], ◌∷◌, ◌++◌, some, none, arith,
  if◌then◌else◌, replicate, length-replicate,
}
use micro_ros_demos.Rclc.{
  Log, Library, exec, is_safe, world_after, verify, nothing, allowed, apply, act, the, publisher,
}
use micro_ros_demos.Rclc.Runs.{verify-exec}
use micro_ros_demos.Programs.Nodes.{ping_uros_agent}
use micro_ros_demos.AgentPing.{
  same_text, basic, interactive, returned, waiting, one_more, wait_for_agent, basic_mode,
  interactive_mode, main, timer_callback, ticks,
}

waits-fail : (n : ℕ) → wait_for_agent (replicate n false) ≡ none
unfolding wait_for_agent
waits-fail zero = refl
waits-fail (suc n) = ap one_more (waits-fail n)

waits-answer :
    (n : ℕ) (later : List Bool)
    → wait_for_agent (replicate n false ++ (true ∷ later)) ≡ some (n + 1)
unfolding wait_for_agent
waits-answer zero later = ap some (omega arith)
waits-answer (suc n) later = ap one_more (waits-answer n later) ∙ ap some (omega arith)

verified : verify ping_uros_agent nothing ≡ true
unfolding verify allowed apply ping_uros_agent
verified = refl

ping_uros_agent-safe : (lib : Library) → is_safe (exec lib ping_uros_agent []).1 ≡ true
unfolding is_safe world_after
ping_uros_agent-safe lib = verify-exec lib ping_uros_agent [] refl verified

-- In interactive mode the program asks until a ping is answered and only then calls the client
-- library, each call of which has what it needs; with no answer it goes on asking. In basic mode one
-- ping decides on the exit code. Without exactly one argument, or with another one, it returns 1 and
-- pings nobody.
pub modes_lem :
    (lib : Library) (n : ℕ) (answer : Bool) (later : List Bool)
    → (main lib (replicate n false) (interactive ∷ []) ≡ waiting n)
      × ((code : ℕ) × (log : Log) × (main lib
              (replicate n false ++ (true ∷ later))
              (interactive ∷ [])
            ≡ returned code (n + 1) log)
          × (is_safe log ≡ true))
      × (main lib (answer ∷ later) (basic ∷ []) ≡ returned (if answer then 0 else 1) 1 [])
      × ((mode : List ℕ)
          → same_text basic mode ≡ false
          → same_text interactive mode ≡ false
          → main lib (answer ∷ later) (mode ∷ []) ≡ returned 1 0 [])
      × (main lib (answer ∷ later) [] ≡ returned 1 0 [])
      × ((a b : List ℕ) (more : List (List ℕ))
          → main lib (answer ∷ later) (a ∷ b ∷ more) ≡ returned 1 0 [])
unfolding main basic_mode interactive_mode
modes_lem lib n answer later = (
  rw (interactive_mode, waits-fail n) (ap waiting (length-replicate n false)),
  (
    (if (exec lib ping_uros_agent []).0 then 0 else 1),
    (exec lib ping_uros_agent []).1,
    rw (interactive_mode, waits-answer n later) refl,
    ping_uros_agent-safe lib,
  ),
  refl,
  λ mode b i. rw (main, b, i) refl,
  refl,
  λ a b more. refl,
)

-- How many messages a log has published.
abbrev pub published : Library → ℕ → Log → Log
published lib zero log = log
published lib (suc n) log =
    let publish = act "rcl_publish" "ping_uros_agent_topic" (the publisher ∷ []) in
    published lib n ((publish, lib log publish) ∷ log)

-- While the agent answers, the timer publishes once for each call; the first call whose ping fails
-- publishes once more and exits, and nothing follows it.
pub agent_lost_lem :
    (lib : Library) (n : ℕ) (later : List Bool) (log : Log)
    → (ticks lib (replicate n true) log ≡ (true, published lib n log))
      × (ticks lib (replicate n true ++ (false ∷ later)) log ≡ (false, published lib (suc n) log))
unfolding ticks timer_callback
agent_lost_lem lib zero later log = (refl, refl)
agent_lost_lem lib (suc n) later log =
    let publish = act "rcl_publish" "ping_uros_agent_topic" (the publisher ∷ []) in
    agent_lost_lem lib n later ((publish, lib log publish) ∷ log)
