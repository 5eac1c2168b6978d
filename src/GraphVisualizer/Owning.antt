-- ===== src/GraphVisualizer/Owning.antt =====
-- What a part of the program owns of the library's answers before and after it runs, and the rules
-- for the ways in which the parts are put together.
use Prim.Native.String.{String}
use micro_ros_demos.Prelude.{
  subst, arith, sym, ap, ltb, length, ◌-◌, ℕ, ◌+◌, ◌≡◌, ◌⊎◌, inl, Bool, true, false, List, [], ◌∷◌,
  Option, some, none, if◌then◌else◌,
}
use micro_ros_demos.GraphVisualizer.{
  Out, Kind, topics, node_names, node_namespaces, Log, acquired, EndpointInfo, EndpointType, Run,
  pure, ◌>>=◌, print, acquire, for_each, print_types, print_endpoints, print_title, visit_service,
  visit_publisher,
}
use micro_ros_demos.GraphVisualizer.Report.{held, release}

-- What a return from main may leave: nothing, the topics, both arrays of the nodes, or the second.
abbrev pub MayLeave : List Kind → Type 0
MayLeave ks =
    (ks ≡ [])
    ⊎ ((ks ≡ topics ∷ [])
        ⊎ ((ks ≡ node_namespaces ∷ node_names ∷ []) ⊎ (ks ≡ node_namespaces ∷ [])))

-- If the program goes on it holds exactly `ks`. If it has returned it left one of these.
abbrev pub Owns : {A : Type 0} → List Kind → Option A → Log → Type 0
Owns ks (some a) log = held log ≡ ks
Owns ks none log = MayLeave (held log)

-- From `before` on, a part of the program owns `after`.
pub record Owning {A : Type 0} (before after : List Kind) (m : Run A) : Type 0 where
  pub owns : (log : Log) → held log ≡ before → Owns after (m log).0 (m log).1

pub Owning-pure : {A : Type 0} (a : A) (ks : List Kind) → Owning ks ks (pure a)
Owning-pure a ks = record { owns = λ log h. h }

pub Owning-print : (out : List Out) (ks : List Kind) → Owning ks ks (print out)
Owning-print out ks = record { owns = λ log h. h }

bind-Owns :
    {A B : Type 0} {ks ls : List Kind} {f : A → Run B}
    → ((a : A) → Owning ks ls (f a))
    → (o : Option A) (log : Log) → Owns ks o log
    → let r : Option B × Log = elim o [ none ↦ (none, log) | some a ↦ f a log ] in Owns ls r.0 r.1
bind-Owns k none log h = h
bind-Owns k (some a) log h = (k a).owns log h

pub Owning-bind :
    {A B : Type 0} {ks ls ms : List Kind} {m : Run A} {f : A → Run B}
    → Owning ks ls m
    → ((a : A) → Owning ls ms (f a))
    → Owning ks ms (m >>= f)
unfolding ◌>>=◌
Owning-bind {m = m} p k = record { owns = λ log h. bind-Owns k (m log).0 (m log).1 (p.owns log h) }

pub Owning-for_each :
    {A : Type 0} {ks : List Kind} {body : ℕ → A → Run (Unit {0})}
    → ((j : ℕ) (x : A) → Owning ks ks (body j x))
    → (j : ℕ) (xs : List A) → Owning ks ks (for_each body j xs)
unfolding for_each
Owning-for_each p j [] = Owning-pure tt _
Owning-for_each p j (x ∷ xs) = Owning-bind (p j x) (λ _. Owning-for_each p (j + 1) xs)

pub Owning-if :
    {A : Type 0} {ks ls : List Kind} {m n : Run A} (b : Bool)
    → Owning ks ls m
    → Owning ks ls n
    → Owning ks ls (if b then m else n)
Owning-if true p q = p
Owning-if false p q = q

pub either-Owns :
    {A : Type 0} {ks ls : List Kind} {m n : Run A} (b : Bool) (log : Log)
    → Owning ks ls m
    → Owning ks ls n
    → held log ≡ ks
    → let r : Option A × Log = if b then m log else n log in Owns ls r.0 r.1
either-Owns true log p q h = p.owns log h
either-Owns false log p q h = q.owns log h

-- An answer that leaves `more` in the program's hands.
answered-Owns :
    {A : Type 0} (more : Log → Log) (all : List Kind) (o : Option A) (log : Log)
    → MayLeave (held log)
    → held (more log) ≡ all
    → let r : Option A × Log = elim o [ none ↦ (none, log) | some a ↦ (some a, more log) ] in
      Owns all r.0 r.1
answered-Owns more all none log l h = l
answered-Owns more all (some a) log l h = h

pub release-cons : (k : Kind) (ks : List Kind) → release k (k ∷ ks) ≡ ks
release-cons k ks = ground arith

pub Owning-acquire :
    {A : Type 0} (k : Kind) (ks : List Kind) (answer : Log → Option A)
    → MayLeave ks
    → Owning ks (k ∷ ks) (acquire (k ∷ []) answer)
unfolding acquire
Owning-acquire k ks answer l = record {
  owns = λ log h.
      answered-Owns (◌∷◌ (acquired k)) (k ∷ ks) (answer log) log (subst MayLeave (sym h) l)
        (ap (◌∷◌ k) h);
}

pub Owning-acquire_nodes :
    {A : Type 0} (answer : Log → Option A)
    → Owning []
        (node_namespaces ∷ node_names ∷ [])
        (acquire (node_names ∷ node_namespaces ∷ []) answer)
unfolding acquire
Owning-acquire_nodes answer = record {
  owns = λ log h.
      answered-Owns (λ l. acquired node_namespaces ∷ acquired node_names ∷ l)
        (node_namespaces ∷ node_names ∷ []) (answer log) log (inl h)
        (ap (λ l. node_namespaces ∷ node_names ∷ l) h);
}

pub Owning-print_title : (title : String) (ks : List Kind) → Owning ks ks (print_title title)
Owning-print_title title ks =
    Owning-bind (Owning-print _ ks) (λ _. Owning-bind (Owning-print _ ks) (λ _. Owning-print _ ks))

pub Owning-print_types : (types : List String) (ks : List Kind) → Owning ks ks (print_types types)
unfolding print_types
Owning-print_types types ks =
    Owning-for_each
      (λ k type.
        Owning-bind (Owning-print _ ks)
          (λ _. Owning-if (ltb k (length types - 1)) (Owning-print _ ks) (Owning-print _ ks)))
      0 types

pub Owning-print_endpoints :
    (expected : EndpointType) (infos : List EndpointInfo) (ks : List Kind)
    → Owning ks ks (print_endpoints expected infos)
unfolding print_endpoints
Owning-print_endpoints expected infos ks = Owning-for_each (λ k info. Owning-print _ ks) 0 infos

pub Owning-visit_service :
    (j : ℕ) (x : String × List String) (ks : List Kind) → Owning ks ks (visit_service j x)
unfolding visit_service
Owning-visit_service j (name, types) ks =
    Owning-bind (Owning-print _ ks) (λ _. Owning-print_types types ks)

pub Owning-visit_publisher :
    (j k : ℕ) (x : String × List String) (ks : List Kind) → Owning ks ks (visit_publisher j k x)
unfolding visit_publisher
Owning-visit_publisher j k (name, types) ks =
    Owning-bind (Owning-print _ ks) (λ _. Owning-print_types types ks)
