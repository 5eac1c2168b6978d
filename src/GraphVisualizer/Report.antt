-- ===== src/GraphVisualizer/Report.antt =====
-- What the graph visualizer is to print of a graph, and how its log is read.
use Prim.Native.String.{String}
use micro_ros_demos.Prelude.{
  ℕ, ◌+◌, ◌≡◌, true, List, [], ◌∷◌, ◌++◌, some, ◌==◌, if◌then◌else◌, length,
}
use micro_ros_demos.GraphVisualizer.{
  Out, text, number, Kind, topics, services, endpoints, node_names, node_namespaces, names_by_node,
  printed, acquired, finished, called, Log, NamesAndTypes, EndpointType, publisher, subscription,
  EndpointInfo, GraphLibrary,
}

pub record Graph : Type 0 where
  pub topics_of : NamesAndTypes
  pub publishers_of : String → List EndpointInfo
  pub subscriptions_of : String → List EndpointInfo
  pub services_of : NamesAndTypes
  pub nodes_of : List (String × String)
  pub published_by : String × String → NamesAndTypes

abbrev pub AllOf : EndpointType → List EndpointInfo → Type 0
AllOf t [] = Unit {0}
AllOf t (info ∷ infos) = (info.endpoint_type ≡ t) × AllOf t infos

-- Every call succeeds and answers with this graph, whose publishers and subscriptions say what they
-- are.
pub record Answers (lib : GraphLibrary) (g : Graph) : Type 0 where
  pub calls_ok : (log : Log) (f : String) → lib.call log f ≡ true
  pub finishes_ok : (log : Log) (k : Kind) → lib.finish log k ≡ true
  pub guard_ok : (log : Log) → lib.graph_guard_condition log ≡ true
  pub topics_ok : (log : Log) → lib.topic_names_and_types log ≡ some g.topics_of
  pub publishers_ok :
      (log : Log) (t : String) → lib.publishers_info_by_topic log t ≡ some (g.publishers_of t)
  pub subscriptions_ok :
      (log : Log) (t : String) → lib.subscriptions_info_by_topic log t ≡ some (g.subscriptions_of t)
  pub services_ok : (log : Log) → lib.service_names_and_types log ≡ some g.services_of
  pub nodes_ok : (log : Log) → lib.names_of_nodes log ≡ some g.nodes_of
  pub published_ok :
      (log : Log) (n : String × String) → lib.publishers_by_node log n ≡ some (g.published_by n)
  pub are_publishers : (t : String) → AllOf publisher (g.publishers_of t)
  pub are_subscriptions : (t : String) → AllOf subscription (g.subscriptions_of t)

-- All that was printed, oldest first.
abbrev pub output : Log → List Out
output [] = []
output (printed out ∷ log) = output log ++ out
output (acquired k ∷ log) = output log
output (finished k ok ∷ log) = output log
output (called f ok ∷ log) = output log

abbrev pub code : Kind → ℕ
code topics = 0
code services = 1
code endpoints = 2
code node_names = 3
code node_namespaces = 4
code names_by_node = 5

abbrev pub release : Kind → List Kind → List Kind
release k [] = []
release k (x ∷ xs) = if code k == code x then xs else x ∷ release k xs

-- The answers that the program has not freed.
abbrev pub held : Log → List Kind
held [] = []
held (printed out ∷ log) = held log
held (acquired k ∷ log) = k ∷ held log
held (finished k ok ∷ log) = release k (held log)
held (called f ok ∷ log) = held log

-- The entries from number `j` on.
abbrev pub entries : {A : Type 0} → (ℕ → A → List Out) → ℕ → List A → List Out
entries f j [] = []
entries f j (x ∷ xs) = f j x ++ entries f (j + 1) xs

-- One line, with commas between the types. No line for no types.
abbrev pub types_line : List String → List Out
types_line [] = []
types_line (t ∷ []) = text t ∷ text "\n" ∷ []
types_line (t ∷ u ∷ ts) = text t ∷ text ", " ∷ types_line (u ∷ ts)

abbrev pub endpoint_line : String → ℕ → EndpointInfo → List Out
endpoint_line label k info =
    text "          Node: '"
    ∷ text info.node_namespace
    ∷ text info.node_name
    ∷ text "', type: '"
    ∷ text info.topic_type
    ∷ text "', '"
    ∷ text label
    ∷ text "'\n"
    ∷ []

abbrev pub title : String → List Out
title name =
    text "\n---------------------------------------------------------------\n"
    ∷ text "  '"
    ∷ text name
    ∷ text "' result\n"
    ∷ text "---------------------------------------------------------------\n"
    ∷ []

abbrev pub count_line : String → ℕ → List Out
count_line what n = text what ∷ number n ∷ text "\n" ∷ []

abbrev pub service_entry : ℕ → String × List String → List Out
service_entry j (name, types) =
    (text "  " ∷ number (j + 1) ∷ text ")  service: '" ∷ text name ∷ text "', types: " ∷ [])
    ++ types_line types

abbrev pub published_entry : ℕ → ℕ → String × List String → List Out
published_entry j k (name, types) =
    (text "      "
      ∷ number (j + 1)
      ∷ text "."
      ∷ number (k + 1)
      ∷ text ")  "
      ∷ text name
      ∷ text ", with types: "
      ∷ [])
    ++ types_line types

module _ (g : Graph) where
  abbrev pub topic_entry : ℕ → String × List String → List Out
  topic_entry j (name, types) =
      (text "  " ∷ number (j + 1) ∷ text ")  topic: '" ∷ text name ∷ text "', types: " ∷ [])
      ++ (types_line types
          ++ ((text "        topic endpoint information:\n" ∷ [])
              ++ (entries (endpoint_line "publisher") 0 (g.publishers_of name)
                  ++ entries (endpoint_line "subscription") 0 (g.subscriptions_of name))))

  abbrev pub node_entry : ℕ → String × String → List Out
  node_entry j (name, namespace) =
      (text "  "
        ∷ number (j + 1)
        ∷ text ")  node: '"
        ∷ text namespace
        ∷ text name
        ∷ text "'\n"
        ∷ text "    'rcl_get_publisher_names_and_types_by_node' result for this node:\n"
        ∷ [])
      ++ entries (published_entry j) 0 (g.published_by (name, namespace))

  abbrev pub topics_section : List Out
  topics_section =
      title "rcl_get_topic_names_and_types"
      ++ (count_line "Current number of ROS 2 and micro-ROS topics: " (length g.topics_of)
          ++ entries topic_entry 0 g.topics_of)

  abbrev pub services_section : List Out
  services_section =
      title "rcl_get_service_names_and_types"
      ++ (count_line "Current number of ROS 2 and micro-ROS services: " (length g.services_of)
          ++ entries service_entry 0 g.services_of)

  abbrev pub nodes_section : List Out
  nodes_section =
      title "rcl_get_node_names"
      ++ (count_line "Current number of ROS 2 and micro-ROS nodes: " (length g.nodes_of)
          ++ entries node_entry 0 g.nodes_of)

  -- The report of a graph: its topics with their types and endpoints, its services, and its nodes
  -- with what they publish.
  abbrev pub report : List Out
  report = topics_section ++ (services_section ++ nodes_section)
