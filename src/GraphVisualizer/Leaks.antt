-- ===== src/GraphVisualizer/Leaks.antt =====
-- What the program has not freed, over any library, when it goes on and when it returns.
use Prim.Native.String.{String}
use micro_ros_demos.Prelude.{
  subst, sym, ℕ, zero, suc, ◌≡◌, inl, inr, refl, Bool, true, false, List, [], ◌∷◌, Option, some,
  none, if◌then◌else◌,
}
use micro_ros_demos.GraphVisualizer.{
  Kind, topics, services, endpoints, node_names, node_namespaces, names_by_node, Log, GraphLibrary,
  called, printed, finished, text, publisher, subscription, visit_topic, visit_topics,
  visit_services, visit_node, finish_node_names, visit_nodes, visit_graph, wait_once, visit_forever,
  no_guard_condition, main, rccheck, soft_check, finish_soft,
}
use micro_ros_demos.GraphVisualizer.Report.{held}
use micro_ros_demos.GraphVisualizer.Owning.{
  either-Owns, MayLeave, Owning, Owning-acquire, Owning-acquire_nodes, Owning-bind, Owning-for_each,
  Owning-if, Owning-print, Owning-print_endpoints, Owning-print_title, Owning-print_types,
  Owning-pure, Owning-visit_publisher, Owning-visit_service, Owns, release-cons,
}

module _ (lib : GraphLibrary) where
  Owning-rccheck : (f : String) (ks : List Kind) → MayLeave ks → Owning ks ks (rccheck lib f)
  Owning-rccheck f ks l = record { owns = λ log h. checked (lib.call log f) log h }
    where
      checked :
          (b : Bool) (log : Log)
          → held log ≡ ks
          → let r : Option (Unit {0}) × Log =
              if b then (some tt, called f true ∷ log) else (none, called f false ∷ log) in
            Owns ks r.0 r.1
      checked true log h = h
      checked false log h = subst MayLeave (sym h) l

  Owning-soft_check : (f : String) (ks : List Kind) → Owning ks ks (soft_check lib f)
  Owning-soft_check f ks = record { owns = λ log h. h }

  Owning-finish_soft : (k : Kind) (ks : List Kind) → Owning (k ∷ ks) ks (finish_soft lib k)
  Owning-finish_soft k ks = record { owns = λ log h. rw h (release-cons k ks) }

  Owning-finish_node_names : Owning (node_namespaces ∷ node_names ∷ []) [] (finish_node_names lib)
  Owning-finish_node_names = record {
    owns = λ log h.
        freed log h (lib.finish log node_names)
          (lib.finish (finished node_names true ∷ log) node_namespaces);
  }
    where
      freed :
          (log : Log)
          → held log ≡ node_namespaces ∷ node_names ∷ []
          → (a b : Bool)
          → let failed = printed (text "Error while freeing rcutils resources\n" ∷ []) in
            let first = finished node_names true ∷ log in
            let r : Option (Unit {0}) × Log =
              if a
              then (if b
                  then (some tt, finished node_namespaces true ∷ first)
                  else (none, failed ∷ finished node_namespaces false ∷ first))
              else (none, failed ∷ finished node_names false ∷ log) in
            Owns [] r.0 r.1
      freed log h true true = rw h refl
      freed log h true false = inl (rw h refl)
      freed log h false b = inr (inr (inr (rw h refl)))

  topics_held : MayLeave (topics ∷ [])
  topics_held = inr (inl refl)

  nodes_held : MayLeave (node_namespaces ∷ node_names ∷ [])
  nodes_held = inr (inr (inl refl))

  Owning-visit_topic :
      (j : ℕ) (x : String × List String) → Owning (topics ∷ []) (topics ∷ []) (visit_topic lib j x)
  unfolding visit_topic
  Owning-visit_topic j (name, types) = Owning-bind (Owning-print _ _) (λ _.
      Owning-bind (Owning-print_types types _) (λ _.
        Owning-bind (Owning-acquire endpoints _ _ topics_held) (λ pubs.
          Owning-bind (Owning-print _ _) (λ _.
            Owning-bind (Owning-print_endpoints publisher pubs _) (λ _.
              Owning-bind (Owning-finish_soft endpoints _) (λ _.
                Owning-bind (Owning-acquire endpoints _ _ topics_held) (λ subs.
                  Owning-bind (Owning-print_endpoints subscription subs _)
                    (λ _. Owning-finish_soft endpoints _))))))))

  Owning-visit_topics : Owning [] [] (visit_topics lib)
  unfolding visit_topics
  Owning-visit_topics = Owning-bind (Owning-acquire topics [] _ (inl refl)) (λ found.
      Owning-bind (Owning-print_title _ _) (λ _. Owning-bind (Owning-print _ _) (λ _.
        Owning-bind (Owning-for_each Owning-visit_topic 0 found)
          (λ _. Owning-finish_soft topics []))))

  Owning-visit_services : Owning [] [] (visit_services lib)
  unfolding visit_services
  Owning-visit_services = Owning-bind (Owning-acquire services [] _ (inl refl)) (λ found.
      Owning-bind (Owning-print_title _ _) (λ _. Owning-bind (Owning-print _ _) (λ _.
        Owning-bind (Owning-for_each (λ j x. Owning-visit_service j x _) 0 found)
          (λ _. Owning-finish_soft services []))))

  Owning-visit_node :
      (j : ℕ) (x : String × String)
      → Owning
          (node_namespaces ∷ node_names ∷ [])
          (node_namespaces ∷ node_names ∷ [])
          (visit_node lib j x)
  unfolding visit_node
  Owning-visit_node j (name, namespace) = Owning-bind (Owning-print _ _) (λ _.
      Owning-bind (Owning-print _ _) (λ _.
        Owning-bind (Owning-acquire names_by_node _ _ nodes_held) (λ found.
          Owning-bind (Owning-for_each (λ k x. Owning-visit_publisher j k x _) 0 found)
            (λ _. Owning-finish_soft names_by_node _))))

  Owning-visit_nodes : Owning [] [] (visit_nodes lib)
  unfolding visit_nodes
  Owning-visit_nodes = Owning-bind (Owning-acquire_nodes _) (λ found.
      Owning-bind (Owning-print_title _ _) (λ _. Owning-bind (Owning-print _ _) (λ _.
        Owning-bind (Owning-for_each Owning-visit_node 0 found) (λ _. Owning-finish_node_names))))

  Owning-visit_graph : (i : ℕ) (triggered : Bool) → Owning [] [] (visit_graph lib i triggered)
  unfolding visit_graph
  Owning-visit_graph i triggered =
      Owning-if triggered
        (Owning-bind Owning-visit_topics
          (λ _. Owning-bind Owning-visit_services (λ _. Owning-visit_nodes)))
        (Owning-pure tt [])

  Owning-wait_once : Owning [] [] (wait_once lib)
  unfolding wait_once
  Owning-wait_once = Owning-bind (Owning-soft_check _ []) (λ _.
      Owning-bind (Owning-rccheck _ [] (inl refl)) (λ _. Owning-bind (Owning-soft_check _ []) (λ _.
        record {
          owns =
              λ log h. (Owning-for_each Owning-visit_graph 0 (lib.guard_conditions log)).owns log h;
        })))

  Owning-visit_forever : (rounds : ℕ) → Owning [] [] (visit_forever lib rounds)
  unfolding visit_forever
  Owning-visit_forever zero = Owning-pure tt []
  Owning-visit_forever (suc rounds) =
      Owning-bind Owning-wait_once (λ _. Owning-visit_forever rounds)

  Owning-no_guard_condition : Owning {A = Unit {0}} [] [] (no_guard_condition lib)
  Owning-no_guard_condition = Owning-bind (Owning-print _ []) (λ _.
      Owning-bind (Owning-rccheck _ [] (inl refl))
        (λ _. Owning-bind (Owning-rccheck _ [] (inl refl)) (λ _. record { owns = λ log h. inl h })))

  Owning-main : (rounds : ℕ) → Owning [] [] (main lib rounds)
  unfolding main
  Owning-main rounds = Owning-bind (Owning-rccheck _ [] (inl refl)) (λ _.
      Owning-bind (Owning-rccheck _ [] (inl refl)) (λ _.
        Owning-bind (Owning-rccheck _ [] (inl refl)) (λ _.
          Owning-bind (Owning-rccheck _ [] (inl refl)) (λ _. record {
            owns = λ log h.
                either-Owns (lib.graph_guard_condition log) log (Owning-visit_forever rounds)
                  Owning-no_guard_condition h;
          }))))

  -- Whatever the library answers, main has handed every answer to the function that frees it when
  -- a round of its loop ends. If it has returned, then what it left is nothing, the topics, both
  -- arrays of the nodes, or only the array of the namespaces.
  pub main-Owns : (rounds : ℕ) → Owns [] (main lib rounds []).0 (main lib rounds []).1
  main-Owns rounds = (Owning-main rounds).owns [] refl
