-- ===== src/Fibonacci/Worker.antt =====
-- What the worker computes: Fibonacci numbers up to order 47, and an overflow beyond it.
use native.Mathlib.Decide.{ℕ_discrete}
use micro_ros_demos.Prelude.{
  ℕ, zero, suc, ◌+◌, ◌-◌, ◌≤◌, ◌<◌, ◌≡◌, refl, sym, subst, ◌∙◌, Bool, false, List, [], ◌∷◌, ◌++◌,
  some, none, if◌then◌else◌, length, get_elem?, set, arith, length-set, get_elem?-set_self,
  get_elem?-set_ne, length-append, Bool-cases, inl, inr,
}
use micro_ros_demos.Fibonacci.{
  ℤ, pos, negsuc, succeeded, canceled, aborted, allocated, uninitialised, Feedback, appended,
  fibonacci_round, fibonacci_loop, send_until_ok, finished, undefined, response, fibonacci_worker,
  handle_goal, accepted,
}
use micro_ros_demos.Fibonacci.Numbers.{fib, fib-small, fib_47, fib_at}

-- A size and an array that holds the Fibonacci numbers below it.
abbrev pub Shows : ℕ → ℕ × List ℕ → Type 0
Shows i (size, elements) = (size ≡ i) × ((j : ℕ) → j < i → get_elem? elements j ≡ some (fib j))

-- Each of the messages shows one number more than the one before it, the first of them `i`.
abbrev pub AllShow : ℕ → List (ℕ × List ℕ) → Type 0
AllShow i [] = Unit {0}
AllShow i (p ∷ ps) = Shows i p × AllShow (i + 1) ps

AllShow-append :
    (i : ℕ) (ps : List (ℕ × List ℕ)) (p : ℕ × List ℕ)
    → AllShow i ps
    → Shows (length ps + i) p
    → AllShow i (ps ++ (p ∷ []))
AllShow-append i [] p all last =
    let e : 0 + i ≡ i = omega arith in (subst (λ t. Shows t p) e last, tt)
AllShow-append i (q ∷ ps) p (first, all) last =
    let e : suc (length ps) + i ≡ length ps + (i + 1) = omega arith in
    (first, AllShow-append (i + 1) ps p all (subst (λ t. Shows t p) e last))

-- The array holds the Fibonacci numbers below `i`.
pub record Filled (n i : ℕ) (f : Feedback) : Type 0 where
  pub room : length f.elements ≡ n
  pub counted : f.size ≡ i
  pub published_count : length f.published + 2 ≡ i
  pub prefixes : AllShow 3 f.published
  pub values : (j : ℕ) → j < i → get_elem? f.elements j ≡ some (fib j)

set-values :
    (n i : ℕ) (f : Feedback)
    → Filled n i f
    → i < n
    → (j : ℕ) → j < suc i
    → get_elem? (set f.elements i (fib i)) j ≡ some (fib j)
set-values n i f v h j k = elim (ℕ_discrete i j) [
  | yes e ↦
      subst (λ t. get_elem? (set f.elements i (fib i)) t ≡ some (fib t)) e
        (get_elem?-set_self f.elements i (fib i) (omega (arith, v.room)))
  | no ne ↦ get_elem?-set_ne f.elements (fib i) ne ∙ v.values j (omega arith)
]

round-Filled :
    (n i : ℕ) (f : Feedback)
    → Filled n i f
    → 2 ≤ i
    → i < n
    → i < 47
    → (f' : Feedback) × (fibonacci_round i f ≡ some f') × Filled n (suc i) f'
unfolding fibonacci_round
round-Filled n i f v two h small = (
  appended f i (fib i),
  ground (arith, v.values (i - 1), v.values (i - 2), fib_at i two, fib-small i small, v.room),
  record {
    room = length-set f.elements i (fib i) ∙ v.room;
    counted = omega (arith, v.counted);
    published_count = omega (
      arith,
      v.published_count,
      length-append f.published ((f.size + 1, set f.elements i (fib i)) ∷ []),
    );
    prefixes =
        let e : suc i ≡ length f.published + 3 = omega (arith, v.published_count) in
        AllShow-append 3 f.published (f.size + 1, set f.elements i (fib i)) v.prefixes
          (subst (λ t. Shows t (f.size + 1, set f.elements i (fib i))) e
            (omega (arith, v.counted), set-values n i f v h));
    values = set-values n i f v h;
  },
)

round-overflow : (n : ℕ) (f : Feedback) → Filled n 47 f → fibonacci_round 47 f ≡ none
unfolding fibonacci_round
round-overflow n f v = ground (arith, v.values 46, v.values 45, fib_at 47 (omega arith), fib_47)

-- The index at which the loop stops: the first at which it reads the cancel flag set, or the order.
pub stop : (ℕ → Bool) → ℕ → ℕ → ℕ
stop cancelled zero i = i
stop cancelled (suc left) i = if cancelled i then i else stop cancelled left (i + 1)

stop-ge : (cancelled : ℕ → Bool) (left i : ℕ) → i ≤ stop cancelled left i
unfolding stop
stop-ge cancelled zero i = omega arith
stop-ge cancelled (suc left) i = ground (arith, stop-ge cancelled left (i + 1))

loop-Filled :
    (cancelled : ℕ → Bool) (n left i : ℕ) (f : Feedback)
    → i + left ≡ n
    → 2 ≤ i
    → Filled n i f
    → stop cancelled left i ≤ 47
    → (f' : Feedback) × (fibonacci_loop cancelled left i f ≡ some f')
      × Filled n (stop cancelled left i) f'
unfolding fibonacci_loop stop
loop-Filled cancelled n zero i f e two v s = (f, refl, v)
loop-Filled cancelled n (suc left) i f e two v s = elim (Bool-cases (cancelled i)) [
  | inl c ↦ (f, rw (c, fibonacci_loop), rw c v)
  | inr c ↦
      let below : stop cancelled left (i + 1) ≤ 47 = rw c at s in
      let (f1, e1, v1) =
        round-Filled n i f v two (omega arith) (omega (arith, stop-ge cancelled left (i + 1))) in
      let v2 : Filled n (i + 1) f1 = subst (λ t. Filled n t f1) (omega arith) v1 in
      let (f2, e2, v3) =
        loop-Filled cancelled n left (i + 1) f1 (omega arith) (omega arith) v2 below in
      (f2, rw (c, fibonacci_loop, e1) e2, rw c v3)
]

loop-overflow :
    (cancelled : ℕ → Bool) (n left i : ℕ) (f : Feedback)
    → i + left ≡ n
    → 2 ≤ i
    → i ≤ 47
    → Filled n i f
    → 47 < stop cancelled left i
    → fibonacci_loop cancelled left i f ≡ none
unfolding fibonacci_loop stop
loop-overflow cancelled n zero i f e two le v s = absurd (omega arith)
loop-overflow cancelled n (suc left) i f e two le v s = elim (Bool-cases (cancelled i)) [
  | inl c ↦ absurd (let s' : 47 < i = rw c at s in omega arith)
  | inr c ↦ elim (ℕ_discrete i 47) [
    | yes q ↦
        let full : fibonacci_round i f ≡ none =
          subst (λ t. fibonacci_round t f ≡ none) (sym q)
            (round-overflow n f (subst (λ t. Filled n t f) q v)) in
        rw (c, fibonacci_loop, full)
    | no ne ↦
        let beyond : 47 < stop cancelled left (i + 1) = rw c at s in
        let (f1, e1, v1) = round-Filled n i f v two (omega arith) (omega arith) in
        let v2 : Filled n (i + 1) f1 = subst (λ t. Filled n t f1) (omega arith) v1 in
        rw (c, fibonacci_loop, e1)
          (loop-overflow cancelled n left (i + 1) f1 (omega arith) (omega arith) (omega arith) v2
            beyond)
  ]
]

started : List ℕ → Feedback
started memory = record { size = 2; elements = set (set memory 0 0) 1 1; published = [] }

started-Filled : (memory : List ℕ) (n : ℕ) → 2 ≤ n → length memory ≡ n → Filled n 2 (started memory)
unfolding started fib
started-Filled memory n two l = record {
  room = length-set (set memory 0 0) 1 1 ∙ length-set memory 0 0 ∙ l;
  counted = refl;
  published_count = refl;
  prefixes = tt;
  values = first;
}
  where
    first : (j : ℕ) → j < 2 → get_elem? (set (set memory 0 0) 1 1) j ≡ some (fib j)
    first zero h =
        get_elem?-set_ne (set memory 0 0) 1 (λ e. omega (arith, e))
        ∙ get_elem?-set_self memory 0 0 (omega arith)
    first (suc zero) h =
        get_elem?-set_self (set memory 0 0) 1 1 (omega (arith, length-set memory 0 0))
    first (suc (suc j)) h = absurd (omega arith)

module _ (n : ℕ) (memory : List ℕ) (cancelled : ℕ → Bool) (after : Bool) (results : List Bool)
    (tries : ℕ) where
  abbrev pub last : ℕ
  last = stop cancelled (n - 2) 2

  -- A goal of order at least 2, with memory for that many numbers, and results of which one is
  -- RCL_RET_OK. Let `last` be the index at which the loop stops, the order if the goal is not
  -- cancelled. Up to 47 the worker has filled its array with the Fibonacci numbers below `last` and
  -- published each new prefix; it answers with them, or with an empty canceled result if it finds
  -- the goal cancelled behind the loop. Beyond 47 an int32_t overflows.
  pub fibonacci_worker_lem :
      2 ≤ n
      → length memory ≡ n
      → send_until_ok results 0 ≡ some tries
      → (last ≤ 47
          → (f : Feedback) × Filled n last f
            × (fibonacci_worker (pos n) memory cancelled after results
                ≡ finished
                    (if after
                      then response canceled 0 [] allocated f.published
                      else response succeeded last f.elements allocated f.published)
                    tries))
        × (47 < last → fibonacci_worker (pos n) memory cancelled after results ≡ undefined)
  unfolding fibonacci_worker started
  fibonacci_worker_lem two l ok = (
    λ le.
        let (f, e, v) =
          loop-Filled cancelled n (n - 2) 2 (started memory) (omega arith) (omega arith)
            (started-Filled memory n two l) le in
        (f, v, ground (arith, e, v.counted, ok)),
    λ gt.
        let e =
          loop-overflow cancelled n (n - 2) 2 (started memory) (omega arith) (omega arith)
            (omega arith) (started-Filled memory n two l) gt in
        ground (arith, e),
  )

pub stop-uncancelled : (left i : ℕ) → stop (λ j. false) left i ≡ i + left
unfolding stop
stop-uncancelled zero i = omega arith
stop-uncancelled (suc left) i = omega (arith, stop-uncancelled left (i + 1))

-- The server accepts goals of order 48 to 200, and overflows on each of them that is not cancelled.
pub accepted_overflow :
    (n : ℕ) (memory : List ℕ) (after : Bool) (results : List Bool) (tries : ℕ)
    → 47 < n
    → n ≤ 200
    → length memory ≡ n
    → send_until_ok results 0 ≡ some tries
    → (handle_goal (pos n) ≡ accepted)
      × (fibonacci_worker (pos n) memory (λ j. false) after results ≡ undefined)
unfolding handle_goal
accepted_overflow n memory after results tries h le l ok = (
  ground arith,
  (fibonacci_worker_lem n memory (λ j. false) after results tries (omega arith) l ok).1
      (omega (arith, stop-uncancelled (n - 2) 2)),
)

abbrev pub IsBelowTwo : ℤ → Type 0
IsBelowTwo (pos n) = n < 2
IsBelowTwo (negsuc n) = Unit {0}

-- A goal of order below 2, negative ones included, is accepted and answered as aborted with no
-- numbers, and the worker then frees a pointer that it has not set.
pub aborted_free :
    (order : ℤ) (memory : List ℕ) (cancelled : ℕ → Bool) (after : Bool) (results : List Bool)
    (tries : ℕ)
    → IsBelowTwo order
    → send_until_ok results 0 ≡ some tries
    → (handle_goal order ≡ accepted)
      × (fibonacci_worker order memory cancelled after results
          ≡ finished (response aborted 0 [] uninitialised []) tries)
unfolding handle_goal fibonacci_worker
aborted_free (pos n) memory cancelled after results tries h ok = (ground arith, ground (arith, ok))
aborted_free (negsuc n) memory cancelled after results tries h ok = (refl, ground (arith, ok))
