-- ===== src/ParameterServer/Tests.antt =====
-- A server that is switched off and on again.
use micro_ros_demos.Prelude.{Bool, true, false, List, [], ◌∷◌, some, none, arith}
use micro_ros_demos.ParameterServer.{
  publish_toogle, publish_rate_ms, bool_value, integer_value, Server,
}
use micro_ros_demos.ParameterServer.Rate.{
  Event, tick, changed, handle_all, Published, handle_all_lem,
}

abbrev server : Server
server = record { publish = true; msg = 5; sent = []; period = 1000000000 }

abbrev toogle : Bool → Event
toogle b = changed none (some (record { name = publish_toogle; value = bool_value b }))

abbrev events : List Event
events =
    tick
    ∷ toogle false
    ∷ tick
    ∷ changed none (some (record { name = publish_rate_ms; value = integer_value 20 }))
    ∷ toogle true
    ∷ tick
    ∷ changed (some (record { name = publish_rate_ms; value = bool_value true })) none
    ∷ tick
    ∷ []

handle_all_lem_example : Published server 3 (handle_all (λ n. true) events server)
handle_all_lem_example = handle_all_lem (λ n. true) events server (omega arith)
