-- ===== src/GraphVisualizer/Tests.antt =====
-- The graph visualizer on a graph with one topic.
use micro_ros_demos.Prelude.{ℕ, ◌≤◌, ◌≡◌, refl, true, [], ◌∷◌, some, none}
use micro_ros_demos.GraphVisualizer.{
  topics, publisher, subscription, Log, EndpointInfo, GraphLibrary, main, visit_forever, wait_once,
  visit_graph, visit_topics, visit_topic, for_each, acquire, print_types, print_endpoints, ◌>>=◌,
}
use micro_ros_demos.GraphVisualizer.Report.{Graph, Answers, output, held, report}
use micro_ros_demos.GraphVisualizer.Owning.{Owns}
use micro_ros_demos.GraphVisualizer.Leaks.{main-Owns}
use micro_ros_demos.GraphVisualizer.Forever.{copies, main_lem}

abbrev talker : EndpointInfo
talker = record {
  node_name = "talker";
  node_namespace = "/";
  topic_type = "std_msgs/msg/String";
  endpoint_type = publisher;
}

abbrev listener : EndpointInfo
listener = record talker { node_name = "listener"; endpoint_type = subscription }

abbrev chatter : Graph
chatter = record {
  topics_of = ("chatter", "std_msgs/msg/String" ∷ "std_msgs/msg/Int32" ∷ []) ∷ [];
  publishers_of = λ t. talker ∷ [];
  subscriptions_of = λ t. listener ∷ [];
  services_of = [];
  nodes_of = ("talker", "/") ∷ ("listener", "/") ∷ [];
  published_by = λ n. ("chatter", "std_msgs/msg/String" ∷ []) ∷ [];
}

abbrev library : GraphLibrary
library = record {
  call = λ log f. true;
  finish = λ log k. true;
  graph_guard_condition = λ log. true;
  guard_conditions = λ log. true ∷ [];
  topic_names_and_types = λ log. some chatter.topics_of;
  publishers_info_by_topic = λ log t. some (chatter.publishers_of t);
  subscriptions_info_by_topic = λ log t. some (chatter.subscriptions_of t);
  service_names_and_types = λ log. some chatter.services_of;
  names_of_nodes = λ log. some chatter.nodes_of;
  publishers_by_node = λ log n. some (chatter.published_by n);
}

library-Answers : Answers library chatter
library-Answers = record {
  calls_ok = λ log f. refl;
  finishes_ok = λ log k. refl;
  guard_ok = λ log. refl;
  topics_ok = λ log. refl;
  publishers_ok = λ log t. refl;
  subscriptions_ok = λ log t. refl;
  services_ok = λ log. refl;
  nodes_ok = λ log. refl;
  published_ok = λ log n. refl;
  are_publishers = λ t. (refl, tt);
  are_subscriptions = λ t. (refl, tt);
}

main_lem_example :
    (n : ℕ) × (log : Log) × (main library 3 [] ≡ (some tt, log))
    × (output log ≡ copies n (report chatter))
    × (held log ≡ [])
    × (n ≤ 3)
    × (((log : Log) → true ≡ true) → n ≡ 3)
main_lem_example = main_lem library chatter library-Answers (λ log. true) (λ log. refl) 3

-- A library that cannot tell the subscriptions of a topic.
abbrev half_blind : GraphLibrary
half_blind = record library { subscriptions_info_by_topic = λ log t. none }

main-Owns_example : Owns [] (main half_blind 1 []).0 (main half_blind 1 []).1
main-Owns_example = main-Owns half_blind 1

topics_not_freed : ((main half_blind 1 []).0 ≡ none) × (held (main half_blind 1 []).1 ≡ topics ∷ [])
unfolding main visit_forever wait_once visit_graph visit_topics visit_topic for_each acquire
    print_types print_endpoints ◌>>=◌
topics_not_freed = (refl, refl)
