-- ===== src/GraphVisualizer/Forever.antt =====
-- The graph visualizer from its start, on a graph that stays as it is.
use Prim.Native.String.{String}
use mathlib.Core.List.{append_assoc, append-nil}
use micro_ros_demos.Prelude.{
  ℕ, zero, suc, ◌≤◌, ◌≡◌, ◌∙◌, refl, sym, ap, Bool, true, false, List, [], ◌∷◌, ◌++◌, some, arith,
  if◌then◌else◌, Bool-cases, inl, inr,
}
use micro_ros_demos.GraphVisualizer.{
  Out, called, Log, GraphLibrary, for_each, rccheck, visit_graph, wait_once, visit_forever, main,
}
use micro_ros_demos.GraphVisualizer.Report.{Graph, Answers, output, held, report}
use micro_ros_demos.GraphVisualizer.Lines.{Says, bind-runs}
use micro_ros_demos.GraphVisualizer.Output.{graph-Says}

abbrev pub copies : ℕ → List Out → List Out
copies zero out = []
copies (suc n) out = out ++ copies n out

module _ (lib : GraphLibrary) (g : Graph) (a : Answers lib g) where
  rccheck-runs : (f : String) (log : Log) → rccheck lib f log ≡ (some tt, called f true ∷ log)
  rccheck-runs f log = rw (a.calls_ok log f) refl

  module _ (woken : Log → Bool)
      (one : (log : Log) → lib.guard_conditions log ≡ woken log ∷ []) where
    -- The log before the wait's outcome is looked at.
    abbrev waited : Log → Log
    waited log =
        let cleared = called "rcl_wait_set_clear" (lib.call log "rcl_wait_set_clear") ∷ log in
        let added = called "rcl_wait_set_add_guard_condition" true ∷ cleared in
        called "rcl_wait" (lib.call added "rcl_wait") ∷ added

    wait-Says : (log : Log) → Says (wait_once lib) log (if woken (waited log) then report g else [])
    unfolding wait_once for_each
    wait-Says log =
        let visit = graph-Says lib g a (waited log) 0 (woken (waited log)) in
        record {
          after = visit.after;
          runs = bind-runs _ _ refl (
              bind-runs _ _ (rccheck-runs _ _) (
                bind-runs _ _ refl (
                  ap (λ bs. for_each (visit_graph lib) 0 bs (waited log)) (one (waited log))
                  ∙ bind-runs _ _ visit.runs refl)));
          prints = visit.prints;
          frees = visit.frees;
        }

    -- After some rounds from `log` on, `n` reports are printed.
    record Goes (rounds : ℕ) (log : Log) : Type 0 where
      visits : ℕ
      says : Says (visit_forever lib rounds) log (copies visits (report g))
      at_most : visits ≤ rounds
      each : ((log : Log) → woken log ≡ true) → visits ≡ rounds

    visit_forever-Goes : (rounds : ℕ) (log : Log) → Goes rounds log
    unfolding visit_forever
    visit_forever-Goes zero log = record {
      visits = 0;
      says = record {
        after = log;
        runs = refl;
        prints = sym (append-nil (output log));
        frees = refl;
      };
      at_most = omega arith;
      each = λ w. refl;
    }
    visit_forever-Goes (suc rounds) log =
        let first = wait-Says log in
        let rest = visit_forever-Goes rounds first.after in
        let runs = bind-runs _ _ first.runs rest.says.runs in
        let frees = rest.says.frees ∙ first.frees in
        elim (Bool-cases (woken (waited log))) [
          | inl w ↦
              let p : output first.after ≡ output log ++ report g = rw w at first.prints in
              record {
                visits = suc rest.visits;
                says = record {
                  after = rest.says.after;
                  runs = runs;
                  prints =
                      rest.says.prints
                      ∙ ap (λ o. o ++ copies rest.visits (report g)) p
                      ∙ append_assoc (output log) (report g) (copies rest.visits (report g));
                  frees = frees;
                };
                at_most = omega (arith, rest.at_most);
                each = λ all. ap suc (rest.each all);
              }
          | inr w ↦
              let p : output first.after ≡ output log ++ [] = rw w at first.prints in
              record {
                visits = rest.visits;
                says = record {
                  after = rest.says.after;
                  runs = runs;
                  prints =
                      rest.says.prints
                      ∙ ap (λ o. o ++ copies rest.visits (report g)) (p ∙ append-nil (output log));
                  frees = frees;
                };
                at_most = omega (arith, rest.at_most);
                each = λ all. absurd (let e : true ≡ false = sym (all (waited log)) ∙ w in cc);
              }
        ]

    -- Let every call succeed and show the same graph, and `rcl_wait` leave the one guard condition
    -- set or not. However many rounds main has made, it has not returned, it has printed nothing but
    -- whole reports of the graph, at most one for each round and exactly one for each if the
    -- condition is always set, and it has freed every answer of the library.
    pub main_lem :
        (rounds : ℕ)
        → (n : ℕ) × (log : Log) × (main lib rounds [] ≡ (some tt, log))
          × (output log ≡ copies n (report g))
          × (held log ≡ [])
          × (n ≤ rounds)
          × (((log : Log) → woken log ≡ true) → n ≡ rounds)
    unfolding main
    main_lem rounds =
        let started =
          called "rcl_wait_set_init" true
          ∷ called "rcl_node_init" true
          ∷ called "rcl_init" true
          ∷ called "rcl_init_options_init" true
          ∷ [] in
        let r = visit_forever-Goes rounds started in
        (
          r.visits,
          r.says.after,
          bind-runs _ _ (rccheck-runs _ _) (
              bind-runs _ _ (rccheck-runs _ _) (
                bind-runs _ _ (rccheck-runs _ _)
                  (bind-runs _ _ (rccheck-runs _ _) (rw (a.guard_ok started) r.says.runs)))),
          r.says.prints,
          r.says.frees,
          r.at_most,
          r.each,
        )
