-- ===== src/Callbacks/Counting/Runs.antt =====
-- What the counting nodes publish and print, and that two nodes of one program do not disturb each
-- other.
use mathlib.Core.List.{append_assoc, append-nil}
use micro_ros_demos.Prelude.{
  ℕ, suc, ◌+◌, ◌^◌, ◌<◌, ◌≡◌, ◌∙◌, refl, sym, Bool, true, false, List, [], ◌∷◌, ◌++◌, Option, some,
  none, ltb, if◌then◌else◌, arith, Bool-cases, inl, inr,
}
use micro_ros_demos.Callbacks.Counting.{
  Line, failed_status, sent, received, Node, timer_callback, subscription_callback, Event, tick,
  message, run, Nodes, timer_callback_1, timer_callback_2, subscription_callback_1,
  subscription_callback_2, NodesEvent, to_first, to_second, handle_nodes, run_nodes,
}

-- How often the timer was given.
abbrev pub ticks : List Event → ℕ
ticks [] = 0
ticks (tick true ok ∷ es) = suc (ticks es)
ticks (tick false ok ∷ es) = ticks es
ticks (message x ∷ es) = ticks es

-- The numbers from `k` on whose publication succeeded.
abbrev pub published : ℕ → List Event → List ℕ
published k [] = []
published k (tick true true ∷ es) = k ∷ published (k + 1) es
published k (tick true false ∷ es) = published (k + 1) es
published k (tick false ok ∷ es) = published k es
published k (message x ∷ es) = published k es

abbrev pub printed : ℕ → List Event → List Line
printed k [] = []
printed k (tick true true ∷ es) = sent k ∷ printed (k + 1) es
printed k (tick true false ∷ es) = failed_status ∷ sent k ∷ printed (k + 1) es
printed k (tick false ok ∷ es) = printed k es
printed k (message x ∷ es) = received x ∷ printed k es

-- The node that events leave behind.
abbrev pub outcome : List Event → Node → Option Node
outcome es n =
    if ltb (n.value + ticks es) (2 ^ 31)
    then some (record {
      value = n.value + ticks es;
      wire = n.wire ++ published n.value es;
      lines = n.lines ++ printed n.value es;
    })
    else none

-- The node after one timer call.
abbrev counted : Bool → Node → Node
counted ok n = record {
  value = n.value + 1;
  wire = n.wire ++ (if ok then n.value ∷ [] else []);
  lines = n.lines ++ (if ok then sent n.value ∷ [] else failed_status ∷ sent n.value ∷ []);
}

ticks-tick : (ok : Bool) (es : List Event) → ticks (tick true ok ∷ es) ≡ suc (ticks es)
ticks-tick true es = refl
ticks-tick false es = refl

outcome-tick :
    (ok : Bool) (es : List Event) (n : Node)
    → outcome es (counted ok n) ≡ outcome (tick true ok ∷ es) n
outcome-tick true es n = ground (
  arith,
  append_assoc n.wire (n.value ∷ []) (published (n.value + 1) es),
  append_assoc n.lines (sent n.value ∷ []) (printed (n.value + 1) es),
)
outcome-tick false es n = ground (
  arith,
  append-nil n.wire,
  append_assoc n.lines (failed_status ∷ sent n.value ∷ []) (printed (n.value + 1) es),
)

run_lem : (es : List Event) (n : Node) → n.value < 2 ^ 31 → run es n ≡ outcome es n
unfolding run
run_lem [] n h = ground (arith, append-nil n.wire, append-nil n.lines)
run_lem (tick true ok ∷ es) n h = elim (Bool-cases (ltb (n.value + 1) (2 ^ 31))) [
  | inl small ↦ rw (run, small) (run_lem es (counted ok n) (ground arith) ∙ outcome-tick ok es n)
  | inr large ↦ rw (run, large) (ground (arith, ticks-tick ok es))
]
run_lem (tick false ok ∷ es) n h = run_lem es n h
run_lem (message x ∷ es) n h =
    run_lem es (subscription_callback x n) h
    ∙ ground (arith, append_assoc n.lines (received x ∷ []) (printed n.value es))

abbrev pub events_1 : List NodesEvent → List Event
events_1 [] = []
events_1 (to_first e ∷ es) = e ∷ events_1 es
events_1 (to_second e ∷ es) = events_1 es

abbrev pub events_2 : List NodesEvent → List Event
events_2 [] = []
events_2 (to_first e ∷ es) = events_2 es
events_2 (to_second e ∷ es) = e ∷ events_2 es

abbrev pub both : Option Node → Option Node → Option Nodes
both none m = none
both (some n) none = none
both (some n) (some m) = some (record { first = n; second = m })

both-none : (o : Option Node) → both o none ≡ none
both-none none = refl
both-none (some n) = refl

-- Two nodes in one program are the two nodes on their own.
run_nodes-both :
    (es : List NodesEvent) (s : Nodes)
    → run_nodes es s ≡ both (run (events_1 es) s.first) (run (events_2 es) s.second)
unfolding run_nodes run handle_nodes timer_callback_1 timer_callback_2 subscription_callback_1
    subscription_callback_2
run_nodes-both [] s = refl
run_nodes-both (to_first (tick timer ok) ∷ es) s =
    elim (timer_callback timer ok s.first)
      as (λ o.
        elim (elim o as (λ _. Option Nodes) [
          | none ↦ none
          | some n ↦ some (record s { first = n })
        ])
          as (λ _. Option Nodes) [ none ↦ none | some s' ↦ run_nodes es s' ]
        ≡ both (elim o as (λ _. Option Node) [ none ↦ none | some n' ↦ run (events_1 es) n' ])
            (run (events_2 es) s.second)) [
              | none ↦ refl
              | some n ↦ run_nodes-both es (record s { first = n })
            ]
run_nodes-both (to_first (message x) ∷ es) s =
    run_nodes-both es (record s { first = subscription_callback x s.first })
run_nodes-both (to_second (tick timer ok) ∷ es) s =
    elim (timer_callback timer ok s.second)
      as (λ o.
        elim (elim o as (λ _. Option Nodes) [
          | none ↦ none
          | some n ↦ some (record s { second = n })
        ])
          as (λ _. Option Nodes) [ none ↦ none | some s' ↦ run_nodes es s' ]
        ≡ both (run (events_1 es) s.first)
            (elim o as (λ _. Option Node) [ none ↦ none | some n' ↦ run (events_2 es) n' ])) [
              | none ↦ sym (both-none (run (events_1 es) s.first))
              | some n ↦ run_nodes-both es (record s { second = n })
            ]
run_nodes-both (to_second (message x) ∷ es) s =
    run_nodes-both es (record s { second = subscription_callback x s.second })

-- With counters below 2^31, whatever comes to the two nodes of int32_multinode and in whatever
-- order, each node counts its own timer calls, publishes its numbers in order except for those
-- whose publication failed, and prints these, the failures and what it received. The program is in
-- undefined behaviour, by an overflow of a counter, exactly if its timer calls take the counter of
-- one node to 2^31.
pub multinode_lem :
    (es : List NodesEvent) (s : Nodes)
    → s.first.value < 2 ^ 31
    → s.second.value < 2 ^ 31
    → run_nodes es s ≡ both (outcome (events_1 es) s.first) (outcome (events_2 es) s.second)
multinode_lem es s h k =
    rw (run_nodes-both, run_lem (events_1 es) s.first h, run_lem (events_2 es) s.second k)
