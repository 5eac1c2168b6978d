-- ===== src/AgentPing/Tests.antt =====
-- An agent that answers the third ping.
use micro_ros_demos.Prelude.{
  ℕ, ◌+◌, ◌≡◌, true, false, List, [], ◌∷◌, ◌++◌, replicate, if◌then◌else◌,
}
use micro_ros_demos.Rclc.{Log, Library, is_safe}
use micro_ros_demos.AgentPing.{same_text, basic, interactive, returned, waiting, main, ticks}
use micro_ros_demos.AgentPing.Modes.{published, modes_lem, agent_lost_lem}

abbrev all_fail : Library
all_fail log c = false

three_modes :
    (main all_fail (replicate 2 false) (interactive ∷ []) ≡ waiting 2)
    × ((code : ℕ) × (log : Log) × (main all_fail
            (replicate 2 false ++ (true ∷ []))
            (interactive ∷ [])
          ≡ returned code (2 + 1) log)
        × (is_safe log ≡ true))
    × (main all_fail (false ∷ []) (basic ∷ []) ≡ returned (if false then 0 else 1) 1 [])
    × ((mode : List ℕ)
        → same_text basic mode ≡ false
        → same_text interactive mode ≡ false
        → main all_fail (false ∷ []) (mode ∷ []) ≡ returned 1 0 [])
    × (main all_fail (false ∷ []) [] ≡ returned 1 0 [])
    × ((a b : List ℕ) (more : List (List ℕ))
        → main all_fail (false ∷ []) (a ∷ b ∷ more) ≡ returned 1 0 [])
three_modes = modes_lem all_fail 2 false []

agent_lost_at_third :
    (ticks all_fail (replicate 2 true) [] ≡ (true, published all_fail 2 []))
    × (ticks all_fail (replicate 2 true ++ (false ∷ true ∷ [])) []
        ≡ (false, published all_fail 3 []))
agent_lost_at_third = agent_lost_lem all_fail 2 (true ∷ []) []
