-- ===== src/GraphVisualizer/Lines.antt =====
-- What the loops over types and endpoints print.
use Prim.Native.String.{String}
use mathlib.Core.List.{append_assoc, append-nil}
use micro_ros_demos.Prelude.{
  ℕ, ◌+◌, ◌-◌, ◌≡◌, ◌∙◌, refl, sym, ap, true, false, List, [], ◌∷◌, ◌++◌, Option, none, some, arith,
  if◌then◌else◌, ltb, length,
}
use micro_ros_demos.GraphVisualizer.{
  Out, text, Kind, node_names, node_namespaces, printed, acquired, Log, EndpointType, EndpointInfo,
  Run, for_each, acquire, print, ◌>>=◌, ◌>>◌, print_types, print_endpoints, endpoint_name,
}
use micro_ros_demos.GraphVisualizer.Report.{AllOf, output, held, entries, types_line, endpoint_line}

-- From this log on `m` returns, having printed `out` and freed all that it acquired.
pub record Says (m : Run (Unit {0})) (log : Log) (out : List Out) : Type 0 where
  pub after : Log
  pub runs : m log ≡ (some tt, after)
  pub prints : output after ≡ output log ++ out
  pub frees : held after ≡ held log

pub bind-runs :
    {A B : Type 0} (m : Run A) (f : A → Run B) {log after : Log} {x : A} {r : Option B × Log}
    → m log ≡ (some x, after)
    → f x after ≡ r
    → (m >>= f) log ≡ r
unfolding ◌>>=◌
bind-runs m f e e' = ap (λ r. elim r.0 [ none ↦ (none, r.1) | some x ↦ f x r.1 ]) e ∙ e'

pub acquire-runs :
    {A : Type 0} (k : Kind) (answer : Log → Option A) (log : Log) (x : A)
    → answer log ≡ some x
    → acquire (k ∷ []) answer log ≡ (some x, acquired k ∷ log)
unfolding acquire
acquire-runs k answer log x e = rw (acquire, e) refl

pub acquire_both-runs :
    {A : Type 0} (answer : Log → Option A) (log : Log) (x : A)
    → answer log ≡ some x
    → acquire (node_names ∷ node_namespaces ∷ []) answer log
      ≡ (some x, acquired node_namespaces ∷ acquired node_names ∷ log)
unfolding acquire
acquire_both-runs answer log x e = rw (acquire, e) refl

pub for_each-Says :
    {A : Type 0} (body : ℕ → A → Run (Unit {0})) (entry : ℕ → A → List Out)
    → ((log : Log) (j : ℕ) (x : A) → Says (body j x) log (entry j x))
    → (xs : List A) (j : ℕ) (log : Log) → Says (for_each body j xs) log (entries entry j xs)
unfolding for_each
for_each-Says body entry one [] j log = record {
  after = log;
  runs = refl;
  prints = sym (append-nil (output log));
  frees = refl;
}
for_each-Says body entry one (x ∷ xs) j log =
    let first = one log j x in
    let rest = for_each-Says body entry one xs (j + 1) first.after in
    record {
      after = rest.after;
      runs = bind-runs _ _ first.runs rest.runs;
      prints =
          rest.prints
          ∙ ap (λ o. o ++ entries entry (j + 1) xs) first.prints
          ∙ append_assoc (output log) (entry j x) (entries entry (j + 1) xs);
      frees = rest.frees ∙ first.frees;
    }

-- The loop of `print_types` from the index `k` of `n` types on.
abbrev print_type : ℕ → ℕ → String → Run (Unit {0})
print_type n k type =
    print (text type ∷ [])
    >> (if ltb k (n - 1) then print (text ", " ∷ []) else print (text "\n" ∷ []))

types_from-Says :
    (n k : ℕ) (types : List String) (log : Log)
    → n ≡ k + length types
    → Says (for_each (print_type n) k types) log (types_line types)
unfolding for_each
types_from-Says n k [] log e = record {
  after = log;
  runs = refl;
  prints = sym (append-nil (output log));
  frees = refl;
}
types_from-Says n k (t ∷ []) log e =
    let last : ltb k (n - 1) ≡ false = ground arith in
    record {
      after = printed (text "\n" ∷ []) ∷ printed (text t ∷ []) ∷ log;
      runs = bind-runs _ _ (bind-runs _ _ refl (rw last refl)) refl;
      prints = append_assoc (output log) (text t ∷ []) (text "\n" ∷ []);
      frees = refl;
    }
types_from-Says n k (t ∷ u ∷ ts) log e =
    let more : ltb k (n - 1) ≡ true = ground arith in
    let rest =
      types_from-Says n (k + 1) (u ∷ ts) (printed (text ", " ∷ []) ∷ printed (text t ∷ []) ∷ log)
        (omega arith) in
    record {
      after = rest.after;
      runs = bind-runs _ _ (bind-runs _ _ refl (rw more refl)) rest.runs;
      prints = rest.prints ∙ simp append_assoc refl;
      frees = rest.frees;
    }

pub types-Says : (types : List String) (log : Log) → Says (print_types types) log (types_line types)
unfolding print_types
types-Says types log = types_from-Says (length types) 0 types log (omega arith)

-- The loop of `print_endpoints`.
abbrev print_endpoint : EndpointType → ℕ → EndpointInfo → Run (Unit {0})
print_endpoint t k info = print (
    text "          Node: '"
    ∷ text info.node_namespace
    ∷ text info.node_name
    ∷ text "', type: '"
    ∷ text info.topic_type
    ∷ text "', '"
    ∷ text (endpoint_name t info.endpoint_type)
    ∷ text "'\n"
    ∷ [])

endpoints_from-Says :
    (t : EndpointType) (infos : List EndpointInfo) (j : ℕ) (log : Log)
    → AllOf t infos
    → Says
        (for_each (print_endpoint t) j infos)
        log
        (entries (endpoint_line (endpoint_name t t)) j infos)
unfolding for_each
endpoints_from-Says t [] j log all = record {
  after = log;
  runs = refl;
  prints = sym (append-nil (output log));
  frees = refl;
}
endpoints_from-Says t (info ∷ infos) j log (e, all) =
    let line = endpoint_line (endpoint_name t t) j info in
    let rest = endpoints_from-Says t infos (j + 1) (printed line ∷ log) all in
    record {
      after = rest.after;
      runs = bind-runs _ _ (rw e refl) rest.runs;
      prints =
          rest.prints
          ∙ append_assoc (output log) line
              (entries (endpoint_line (endpoint_name t t)) (j + 1) infos);
      frees = rest.frees;
    }

pub endpoints-Says :
    (t : EndpointType) (infos : List EndpointInfo) (log : Log)
    → AllOf t infos
    → Says (print_endpoints t infos) log (entries (endpoint_line (endpoint_name t t)) 0 infos)
unfolding print_endpoints
endpoints-Says t infos log all = endpoints_from-Says t infos 0 log all
