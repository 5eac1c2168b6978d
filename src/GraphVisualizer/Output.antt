-- ===== src/GraphVisualizer/Output.antt =====
-- What one visit of the graph prints and keeps.
use Prim.Native.String.{String}
use mathlib.Core.List.{append_assoc, append-nil}
use micro_ros_demos.Prelude.{
  ℕ, ◌+◌, ◌≡◌, ◌∙◌, refl, sym, Bool, true, false, List, [], ◌∷◌, some, if◌then◌else◌, length,
}
use micro_ros_demos.GraphVisualizer.{
  text, number, topics, services, endpoints, node_names, node_namespaces, names_by_node, printed,
  acquired, finished, Log, publisher, subscription, GraphLibrary, print_title, visit_topic,
  visit_topics, visit_service, visit_services, visit_publisher, visit_node, visit_nodes,
  visit_graph,
}
use micro_ros_demos.GraphVisualizer.Report.{
  Graph, Answers, output, count_line, topic_entry, service_entry, published_entry, node_entry,
  topics_section, services_section, nodes_section, report,
}
use micro_ros_demos.GraphVisualizer.Lines.{
  Says, bind-runs, acquire-runs, acquire_both-runs, for_each-Says, types-Says, endpoints-Says,
}

abbrev titled : String → Log → Log
titled name log =
    printed (text "---------------------------------------------------------------\n" ∷ [])
    ∷ printed (text "  '" ∷ text name ∷ text "' result\n" ∷ [])
    ∷ printed (text "\n---------------------------------------------------------------\n" ∷ [])
    ∷ log

title-runs : (name : String) (log : Log) → print_title name log ≡ (some tt, titled name log)
title-runs name log = bind-runs _ _ refl (bind-runs _ _ refl refl)

module _ (lib : GraphLibrary) (g : Graph) (a : Answers lib g) where
  topic-Says :
      (log : Log) (j : ℕ) (x : String × List String)
      → Says (visit_topic lib j x) log (topic_entry g j x)
  unfolding visit_topic
  topic-Says log j (name, types) =
      let head =
        text "  " ∷ number (j + 1) ∷ text ")  topic: '" ∷ text name ∷ text "', types: " ∷ [] in
      let first = types-Says types (printed head ∷ log) in
      let pubs =
        endpoints-Says publisher (g.publishers_of name)
          (printed (text "        topic endpoint information:\n" ∷ [])
            ∷ acquired endpoints
            ∷ first.after)
          (a.are_publishers name) in
      let subs =
        endpoints-Says subscription (g.subscriptions_of name)
          (acquired endpoints ∷ finished endpoints (lib.finish pubs.after endpoints) ∷ pubs.after)
          (a.are_subscriptions name) in
      record {
        after = finished endpoints (lib.finish subs.after endpoints) ∷ subs.after;
        runs = bind-runs _ _ refl (
            bind-runs _ _ first.runs (
              bind-runs _ _
                (acquire-runs endpoints _ first.after (g.publishers_of name)
                  (a.publishers_ok first.after name))
                (bind-runs _ _ refl (
                  bind-runs _ _ pubs.runs (
                    bind-runs _ _ refl (
                      bind-runs _ _
                        (acquire-runs endpoints _ _ (g.subscriptions_of name)
                          (a.subscriptions_ok _ name))
                        (bind-runs _ _ subs.runs refl)))))));
        prints = simp (subs.prints, pubs.prints, first.prints, append_assoc) refl;
        frees = rw (subs.frees, pubs.frees, first.frees) refl;
      }

  topics-Says : (log : Log) → Says (visit_topics lib) log (topics_section g)
  unfolding visit_topics
  topics-Says log =
      let counted =
        printed (count_line "Current number of ROS 2 and micro-ROS topics: " (length g.topics_of))
        ∷ titled "rcl_get_topic_names_and_types" (acquired topics ∷ log) in
      let all = for_each-Says (visit_topic lib) (topic_entry g) topic-Says g.topics_of 0 counted in
      record {
        after = finished topics (lib.finish all.after topics) ∷ all.after;
        runs =
            bind-runs _ _ (acquire-runs topics _ log g.topics_of (a.topics_ok log))
              (bind-runs _ _ (title-runs _ _) (bind-runs _ _ refl (bind-runs _ _ all.runs refl)));
        prints = simp (all.prints, append_assoc) refl;
        frees = rw all.frees refl;
      }

  service-Says :
      (log : Log) (j : ℕ) (x : String × List String)
      → Says (visit_service j x) log (service_entry j x)
  unfolding visit_service
  service-Says log j (name, types) =
      let head =
        text "  " ∷ number (j + 1) ∷ text ")  service: '" ∷ text name ∷ text "', types: " ∷ [] in
      let line = types-Says types (printed head ∷ log) in
      record {
        after = line.after;
        runs = bind-runs _ _ refl line.runs;
        prints = simp (line.prints, append_assoc) refl;
        frees = line.frees;
      }

  services-Says : (log : Log) → Says (visit_services lib) log (services_section g)
  unfolding visit_services
  services-Says log =
      let counted =
        printed
          (count_line "Current number of ROS 2 and micro-ROS services: " (length g.services_of))
        ∷ titled "rcl_get_service_names_and_types" (acquired services ∷ log) in
      let all = for_each-Says visit_service (service_entry) service-Says g.services_of 0 counted in
      record {
        after = finished services (lib.finish all.after services) ∷ all.after;
        runs =
            bind-runs _ _ (acquire-runs services _ log g.services_of (a.services_ok log))
              (bind-runs _ _ (title-runs _ _) (bind-runs _ _ refl (bind-runs _ _ all.runs refl)));
        prints = simp (all.prints, append_assoc) refl;
        frees = rw all.frees refl;
      }

  publisher-Says :
      (j : ℕ) (log : Log) (k : ℕ) (x : String × List String)
      → Says (visit_publisher j k x) log (published_entry j k x)
  unfolding visit_publisher
  publisher-Says j log k (name, types) =
      let head =
        text "      "
        ∷ number (j + 1)
        ∷ text "."
        ∷ number (k + 1)
        ∷ text ")  "
        ∷ text name
        ∷ text ", with types: "
        ∷ [] in
      let line = types-Says types (printed head ∷ log) in
      record {
        after = line.after;
        runs = bind-runs _ _ refl line.runs;
        prints = simp (line.prints, append_assoc) refl;
        frees = line.frees;
      }

  node-Says :
      (log : Log) (j : ℕ) (x : String × String) → Says (visit_node lib j x) log (node_entry g j x)
  unfolding visit_node
  node-Says log j (name, namespace) =
      let head =
        text "  "
        ∷ number (j + 1)
        ∷ text ")  node: '"
        ∷ text namespace
        ∷ text name
        ∷ text "'\n"
        ∷ [] in
      let below =
        text "    'rcl_get_publisher_names_and_types_by_node' result for this node:\n" ∷ [] in
      let found = g.published_by (name, namespace) in
      let before = printed below ∷ printed head ∷ log in
      let all =
        for_each-Says (visit_publisher j) (published_entry j) (publisher-Says j) found 0
          (acquired names_by_node ∷ before) in
      record {
        after = finished names_by_node (lib.finish all.after names_by_node) ∷ all.after;
        runs = bind-runs _ _ refl (
            bind-runs _ _ refl (
              bind-runs _ _
                (acquire-runs names_by_node _ before found
                  (a.published_ok before (name, namespace)))
                (bind-runs _ _ all.runs refl)));
        prints = simp (all.prints, append_assoc) refl;
        frees = rw all.frees refl;
      }

  nodes-Says : (log : Log) → Says (visit_nodes lib) log (nodes_section g)
  unfolding visit_nodes
  nodes-Says log =
      let counted =
        printed (count_line "Current number of ROS 2 and micro-ROS nodes: " (length g.nodes_of))
        ∷ titled "rcl_get_node_names" (acquired node_namespaces ∷ acquired node_names ∷ log) in
      let all = for_each-Says (visit_node lib) (node_entry g) node-Says g.nodes_of 0 counted in
      record {
        after = finished node_namespaces true ∷ finished node_names true ∷ all.after;
        runs = bind-runs _ _ (acquire_both-runs _ log g.nodes_of (a.nodes_ok log)) (
            bind-runs _ _ (title-runs _ _) (
              bind-runs _ _ refl (
                bind-runs _ _ all.runs (
                  rw
                    (
                      a.finishes_ok all.after node_names,
                      a.finishes_ok (finished node_names true ∷ all.after) node_namespaces,
                    )
                    refl))));
        prints = simp (all.prints, append_assoc) refl;
        frees = rw all.frees refl;
      }

  -- One visit.
  pub graph-Says :
      (log : Log) (i : ℕ) (triggered : Bool)
      → Says (visit_graph lib i triggered) log (if triggered then report g else [])
  unfolding visit_graph
  graph-Says log i true =
      let t = topics-Says log in
      let s = services-Says t.after in
      let n = nodes-Says s.after in
      record {
        after = n.after;
        runs = bind-runs _ _ t.runs (bind-runs _ _ s.runs n.runs);
        prints = simp (n.prints, s.prints, t.prints, append_assoc) refl;
        frees = n.frees ∙ s.frees ∙ t.frees;
      }
  graph-Says log i false = record {
    after = log;
    runs = refl;
    prints = sym (append-nil (output log));
    frees = refl;
  }
