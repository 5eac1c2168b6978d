-- ===== src/Callbacks/Counting/Tests.antt =====
-- Two nodes that tick in turns.
use micro_ros_demos.Prelude.{◌≡◌, refl, true, false, [], ◌∷◌, some, arith}
use micro_ros_demos.Callbacks.Counting.{
  fresh, sent, received, tick, message, Nodes, to_first, to_second, run_nodes,
}
use micro_ros_demos.Callbacks.Counting.Runs.{multinode_lem, both, outcome}

abbrev two : Nodes
two = record { first = fresh; second = fresh }

multinode_lem_example :
    run_nodes
      (to_first (tick true true)
        ∷ to_second (tick true false)
        ∷ to_first (message 0)
        ∷ to_first (tick true true)
        ∷ [])
      two
    ≡ both
        (outcome (tick true true ∷ message 0 ∷ tick true true ∷ []) fresh)
        (outcome (tick true false ∷ []) fresh)
multinode_lem_example =
    multinode_lem
      (to_first (tick true true)
        ∷ to_second (tick true false)
        ∷ to_first (message 0)
        ∷ to_first (tick true true)
        ∷ [])
      two (omega arith) (omega arith)

lines_of_first :
    outcome (tick true true ∷ message 0 ∷ tick true true ∷ []) fresh
    ≡ some (record { value = 2; wire = 0 ∷ 1 ∷ []; lines = sent 0 ∷ received 0 ∷ sent 1 ∷ [] })
lines_of_first = refl
