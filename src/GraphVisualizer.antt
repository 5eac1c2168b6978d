-- ===== src/GraphVisualizer.antt =====
-- rclc/graph_introspection/graph_visualizer/main.c: prints the topics, services and nodes whenever
-- the graph changes. What the client library answers is a parameter; a log keeps what the program
-- has done.
mod Report
mod Lines
mod Output
mod Forever
mod Owning
mod Leaks
mod Tests
use Prim.Native.String.{String}
use micro_ros_demos.Prelude.{
  ℕ, zero, suc, ◌+◌, ◌-◌, Bool, true, false, List, [], ◌∷◌, Option, some, none, ◌==◌, if◌then◌else◌,
  ltb, length,
}

-- A part of what a `printf` writes.
pub data Out : Type 0 where
  text : String → Out
  number : ℕ → Out

-- What the library allocates for the program. `endpoints` is for one topic, and `names_by_node` for
-- one node.
pub data Kind : Type 0 where
  topics services endpoints node_names node_namespaces names_by_node : Kind

-- `acquired` is an answer that the program owns then, and `finished` the call that frees it. The
-- messages of RCCHECK and RCSOFTCHECK are left out.
pub data Event : Type 0 where
  printed : List Out → Event
  acquired : Kind → Event
  finished : Kind → Bool → Event
  called : String → Bool → Event

-- The latest first.
abbrev pub Log : Type 0
Log = List Event

-- `rcl_names_and_types_t`: each name with its types.
abbrev pub NamesAndTypes : Type 0
NamesAndTypes = List (String × List String)

pub data EndpointType : Type 0 where
  invalid publisher subscription : EndpointType

-- `rcl_topic_endpoint_info_t`
pub record EndpointInfo : Type 0 where
  pub node_name : String
  pub node_namespace : String
  pub topic_type : String
  pub endpoint_type : EndpointType

-- What the library's calls give, by what happened before: `none` is a return value that is not
-- RCL_RET_OK. `graph_guard_condition` is false for NULL, and `guard_conditions` is the wait set's
-- array behind `rcl_wait`, with false for NULL.
pub record GraphLibrary : Type 0 where
  pub call : Log → String → Bool
  pub finish : Log → Kind → Bool
  pub graph_guard_condition : Log → Bool
  pub guard_conditions : Log → List Bool
  pub topic_names_and_types : Log → Option NamesAndTypes
  pub publishers_info_by_topic : Log → String → Option (List EndpointInfo)
  pub subscriptions_info_by_topic : Log → String → Option (List EndpointInfo)
  pub service_names_and_types : Log → Option NamesAndTypes
  pub names_of_nodes : Log → Option (List (String × String))
  pub publishers_by_node : Log → String × String → Option NamesAndTypes

-- `none` is a return from main with 1.
abbrev pub Run : Type 0 → Type 0
Run A = Log → Option A × Log

abbrev pub pure : {A : Type 0} → A → Run A
pure a log = (some a, log)

infixl 5 ◌>>=◌ ◌>>◌
unfoldable pub ◌>>=◌ : {A B : Type 0} → Run A → (A → Run B) → Run B
◌>>=◌ m f log = let (r, after) = m log in elim r [ none ↦ (none, after) | some a ↦ f a after ]

abbrev pub ◌>>◌ : {B : Type 0} → Run (Unit {0}) → Run B → Run B
m >> k = m >>= λ _. k

abbrev pub print : List Out → Run (Unit {0})
print out log = (some tt, printed out ∷ log)

abbrev pub return_1 : {A : Type 0} → Run A
return_1 log = (none, log)

-- An answer of the library, under RCCHECK.
unfoldable pub acquire : {A : Type 0} → List Kind → (Log → Option A) → Run A
acquire [] answer log = (answer log, log)
acquire (k ∷ ks) answer log = elim (answer log) [
  | none ↦ (none, log)
  | some a ↦ acquire ks (λ _. some a) (acquired k ∷ log)
]

-- `for (size_t j = ...; j < size; ++j)`, from the index on, over the elements that are left
unfoldable pub for_each : {A : Type 0} → (ℕ → A → Run (Unit {0})) → ℕ → List A → Run (Unit {0})
for_each body j [] = pure tt
for_each body j (x ∷ xs) = body j x >> for_each body (j + 1) xs

-- `printf("%s", types[k])` with a comma behind it while `k < size - 1`, else a line break
unfoldable pub print_types : List String → Run (Unit {0})
print_types types =
    for_each
      (λ k type.
        print (text type ∷ [])
        >> (if ltb k (length types - 1) then print (text ", " ∷ []) else print (text "\n" ∷ [])))
      0 types

abbrev pub endpoint_name : EndpointType → EndpointType → String
endpoint_name publisher publisher = "publisher"
endpoint_name subscription subscription = "subscription"
endpoint_name _ _ = "error"

unfoldable pub print_endpoints : EndpointType → List EndpointInfo → Run (Unit {0})
print_endpoints expected infos =
    for_each
      (λ k info. print (
        text "          Node: '"
        ∷ text info.node_namespace
        ∷ text info.node_name
        ∷ text "', type: '"
        ∷ text info.topic_type
        ∷ text "', '"
        ∷ text (endpoint_name expected info.endpoint_type)
        ∷ text "'\n"
        ∷ []))
      0 infos

abbrev pub print_title : String → Run (Unit {0})
print_title title = do
  print (text "\n---------------------------------------------------------------\n" ∷ [])
  print (text "  '" ∷ text title ∷ text "' result\n" ∷ [])
  print (text "---------------------------------------------------------------\n" ∷ [])

unfoldable pub visit_service : ℕ → String × List String → Run (Unit {0})
visit_service j (name, types) = do
  print (text "  " ∷ number (j + 1) ∷ text ")  service: '" ∷ text name ∷ text "', types: " ∷ [])
  print_types types

unfoldable pub visit_publisher : ℕ → ℕ → String × List String → Run (Unit {0})
visit_publisher j k (name, types) = do
  print (
      text "      "
      ∷ number (j + 1)
      ∷ text "."
      ∷ number (k + 1)
      ∷ text ")  "
      ∷ text name
      ∷ text ", with types: "
      ∷ [])
  print_types types

module _ (lib : GraphLibrary) where
  abbrev pub rccheck : String → Run (Unit {0})
  rccheck f log =
      if lib.call log f then (some tt, called f true ∷ log) else (none, called f false ∷ log)

  abbrev pub soft_check : String → Run (Unit {0})
  soft_check f log = (some tt, called f (lib.call log f) ∷ log)

  -- A `fini` whose result is dropped or under RCSOFTCHECK.
  abbrev pub finish_soft : Kind → Run (Unit {0})
  finish_soft k log = (some tt, finished k (lib.finish log k) ∷ log)

  -- The body of the loop over the topics.
  unfoldable pub visit_topic : ℕ → String × List String → Run (Unit {0})
  visit_topic j (name, types) = do
    print (text "  " ∷ number (j + 1) ∷ text ")  topic: '" ∷ text name ∷ text "', types: " ∷ [])
    print_types types
    publishers ← acquire (endpoints ∷ []) (λ log. lib.publishers_info_by_topic log name)
    print (text "        topic endpoint information:\n" ∷ [])
    print_endpoints publisher publishers
    finish_soft endpoints
    subscriptions ← acquire (endpoints ∷ []) (λ log. lib.subscriptions_info_by_topic log name)
    print_endpoints subscription subscriptions
    finish_soft endpoints

  unfoldable pub visit_topics : Run (Unit {0})
  visit_topics = do
    found ← acquire (topics ∷ []) lib.topic_names_and_types
    print_title "rcl_get_topic_names_and_types"
    print (
        text "Current number of ROS 2 and micro-ROS topics: "
        ∷ number (length found)
        ∷ text "\n"
        ∷ [])
    for_each visit_topic 0 found
    finish_soft topics

  unfoldable pub visit_services : Run (Unit {0})
  visit_services = do
    found ← acquire (services ∷ []) lib.service_names_and_types
    print_title "rcl_get_service_names_and_types"
    print (
        text "Current number of ROS 2 and micro-ROS services: "
        ∷ number (length found)
        ∷ text "\n"
        ∷ [])
    for_each visit_service 0 found
    finish_soft services

  -- A node's name and its namespace.
  unfoldable pub visit_node : ℕ → String × String → Run (Unit {0})
  visit_node j (name, namespace) = do
    print (
        text "  "
        ∷ number (j + 1)
        ∷ text ")  node: '"
        ∷ text namespace
        ∷ text name
        ∷ text "'\n"
        ∷ [])
    print (text "    'rcl_get_publisher_names_and_types_by_node' result for this node:\n" ∷ [])
    found ← acquire (names_by_node ∷ []) (λ log. lib.publishers_by_node log (name, namespace))
    for_each (visit_publisher j) 0 found
    finish_soft names_by_node

  -- The second array is not freed if the first cannot be.
  abbrev pub finish_node_names : Run (Unit {0})
  finish_node_names log =
      let failed = printed (text "Error while freeing rcutils resources\n" ∷ []) in
      if lib.finish log node_names
      then (let freed = finished node_names true ∷ log in
          if lib.finish freed node_namespaces
          then (some tt, finished node_namespaces true ∷ freed)
          else (none, failed ∷ finished node_namespaces false ∷ freed))
      else (none, failed ∷ finished node_names false ∷ log)

  unfoldable pub visit_nodes : Run (Unit {0})
  visit_nodes = do
    found ← acquire (node_names ∷ node_namespaces ∷ []) lib.names_of_nodes
    print_title "rcl_get_node_names"
    print (
        text "Current number of ROS 2 and micro-ROS nodes: "
        ∷ number (length found)
        ∷ text "\n"
        ∷ [])
    for_each visit_node 0 found
    finish_node_names

  -- The body of the loop over the guard conditions.
  unfoldable pub visit_graph : ℕ → Bool → Run (Unit {0})
  visit_graph i triggered =
      if triggered then visit_topics >> (visit_services >> visit_nodes) else pure tt

  unfoldable pub wait_once : Run (Unit {0})
  wait_once = do
    soft_check "rcl_wait_set_clear"
    rccheck "rcl_wait_set_add_guard_condition"
    soft_check "rcl_wait"
    λ log. for_each visit_graph 0 (lib.guard_conditions log) log

  -- `while (true)`, that many rounds of it
  unfoldable pub visit_forever : ℕ → Run (Unit {0})
  visit_forever zero = pure tt
  visit_forever (suc rounds) = wait_once >> visit_forever rounds

  abbrev pub no_guard_condition : {A : Type 0} → Run A
  no_guard_condition = do
    print (text "Error: node graph guard condition is invalid\n" ∷ [])
    rccheck "rcl_node_fini"
    rccheck "rcl_shutdown"
    return_1

  unfoldable pub main : ℕ → Run (Unit {0})
  main rounds = do
    rccheck "rcl_init_options_init"
    rccheck "rcl_init"
    rccheck "rcl_node_init"
    rccheck "rcl_wait_set_init"
    λ log.
        if lib.graph_guard_condition log then visit_forever rounds log else no_guard_condition log
