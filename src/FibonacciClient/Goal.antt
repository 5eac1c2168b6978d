-- ===== src/FibonacciClient/Goal.antt =====
-- A goal of the client on the action server of Fibonacci.antt.
use mathlib.Core.List.{append_assoc, append-nil}
use micro_ros_demos.Prelude.{
  ℕ, zero, suc, ◌+◌, ◌-◌, ◌≤◌, ◌<◌, ◌≡◌, ◌∙◌, refl, sym, ap, subst, Bool, true, false, List, [],
  ◌∷◌, ◌++◌, some, arith, if◌then◌else◌, length, get_elem?, map, Bool-cases, inl, inr,
}
use micro_ros_demos.Fibonacci.{
  ℤ, pos, succeeded, GoalReply, accepted, rejected, handle_goal, WorkerEnd, finished, response,
  allocated, still_sending, undefined, fibonacci_worker, send_until_ok, Feedback,
}
use micro_ros_demos.Fibonacci.Numbers.{fib}
use micro_ros_demos.Fibonacci.Worker.{
  Shows, AllShow, Filled, last, fibonacci_worker_lem, stop-uncancelled,
}
use micro_ros_demos.FibonacciClient.{
  Out, text, int, Client, print, goal_request_callback, print_sequence, close_list,
  feedback_callback, complete, result_request_callback, Notice, goal_response, feedback, result,
  deliver, spin_some, left, waiting, wait_for_goal, at_start,
}

-- What the server sends for a goal, in order.
abbrev pub worker_notices : WorkerEnd → List Notice
worker_notices (finished r tries) =
    map feedback r.published ++ (result r.goal_state (r.size, r.elements) ∷ [])
worker_notices still_sending = []
worker_notices undefined = []

abbrev pub notices : GoalReply → WorkerEnd → List Notice
notices rejected w = goal_response false ∷ []
notices accepted w = goal_response true ∷ worker_notices w

-- `n` Fibonacci numbers from the one with the number `i` on.
abbrev pub numbers : ℕ → ℕ → List Out
numbers zero i = []
numbers (suc n) i = int (pos (fib i)) ∷ text " " ∷ numbers n (i + 1)

abbrev pub accepted_line : ℤ → List Out
accepted_line order =
    text "Goal request (order: " ∷ int order ∷ text "): " ∷ text "Accepted" ∷ text "\n" ∷ []

abbrev pub feedback_line : ℤ → ℕ → List Out
feedback_line order n =
    (text "Goal Feedback (order: " ∷ int order ∷ text ") [" ∷ [])
    ++ (numbers n 0 ++ (text "\u{8}]\n" ∷ []))

-- `count` lines, the first with `n` numbers and each with one more.
abbrev pub feedback_lines : ℤ → ℕ → ℕ → List Out
feedback_lines order zero n = []
feedback_lines order (suc count) n = feedback_line order n ++ feedback_lines order count (n + 1)

abbrev pub result_line : ℤ → ℕ → List Out
result_line order n =
    (text "Goal Result (order: " ∷ int order ∷ text ") [" ∷ [])
    ++ (numbers n 0 ++ (text "\u{8}]\n" ∷ []))

sequence-numbers :
    (n i : ℕ) (elements : List ℕ) (c : Client)
    → ((j : ℕ) → j < i + n → get_elem? elements j ≡ some (fib j))
    → print_sequence n i elements c ≡ some (print (numbers n i) c)
unfolding print_sequence
sequence-numbers zero i elements c v = rw (append-nil c.printed) refl
sequence-numbers (suc n) i elements c v =
    rw (print_sequence, v i (omega arith))
      (sequence-numbers n (i + 1) elements (print (int (pos (fib i)) ∷ text " " ∷ []) c)
          (λ j h. v j (omega arith))
        ∙ ap (λ p. some (record c { printed = p }))
            (append_assoc c.printed (int (pos (fib i)) ∷ text " " ∷ []) (numbers n (i + 1))))

feedback-line :
    (order : ℤ) (n : ℕ) (p : ℕ × List ℕ) (c : Client)
    → Shows n p
    → feedback_callback order p c ≡ some (print (feedback_line order n) c)
unfolding feedback_callback
feedback-line order n (size, elements) c (e, v) = rw e (
    ap close_list (
      sequence-numbers n 0 elements
        (print (text "Goal Feedback (order: " ∷ int order ∷ text ") [" ∷ []) c)
        (λ j h. v j (omega arith)))
    ∙ ap (λ p. some (record c { printed = p })) (simp append_assoc refl))

result-line :
    (order : ℤ) (n : ℕ) (p : ℕ × List ℕ) (c : Client)
    → Shows n p
    → result_request_callback order succeeded p c
      ≡ some (record (print (result_line order n) c) { goal_completed = true })
unfolding result_request_callback
result-line order n (size, elements) c (e, v) = rw e (
    ap (λ r. complete (close_list r))
      (sequence-numbers n 0 elements
        (print (text "Goal Result (order: " ∷ int order ∷ text ") [" ∷ []) c)
        (λ j h. v j (omega arith)))
    ∙ ap (λ p. some (record { goal_completed = true; printed = p })) (simp append_assoc refl))

accepts : (n : ℕ) → n ≤ 47 → handle_goal (pos n) ≡ accepted
unfolding handle_goal
accepts n h = ground arith

-- The client is at `c`, and what is still to be delivered brings it to `c2`, which it leaves the
-- loop with, and not before.
abbrev Rest : ℤ → Client → List Notice → Client → Type 0
Rest order c [] c2 = (c ≡ c2) × (c.goal_completed ≡ true)
Rest order c (m ∷ ms) c2 =
    (c.goal_completed ≡ false) × (c' : Client) × (deliver order m c ≡ some c') × Rest order c' ms c2

spin_some-Rest :
    (order : ℤ) (ns rest : List Notice) (c c2 : Client)
    → Rest order c (ns ++ rest) c2
    → (c' : Client) × (spin_some order ns c ≡ some c') × Rest order c' rest c2
unfolding spin_some
spin_some-Rest order [] rest c c2 r = (c, refl, r)
spin_some-Rest order (n ∷ ns) rest c c2 (no_end, c1, e, r) =
    let (c', e', r') = spin_some-Rest order ns rest c1 c2 r in (c', rw (spin_some, e) e', r')

completed-Rest :
    (order : ℤ) (ms : List Notice) (c c2 : Client)
    → Rest order c ms c2
    → c.goal_completed ≡ true
    → c ≡ c2
completed-Rest order [] c c2 (e, done) h = e
completed-Rest order (m ∷ ms) c c2 (no_end, c', e, r) h =
    absurd (let z : true ≡ false = sym h ∙ no_end in cc)

abbrev pub concat : List (List Notice) → List Notice
concat [] = []
concat (ns ∷ rounds) = ns ++ concat rounds

wait-Rest :
    (order : ℤ) (rounds : List (List Notice)) (c c2 : Client)
    → Rest order c (concat rounds) c2
    → wait_for_goal order rounds c ≡ left c2
unfolding wait_for_goal
wait-Rest order [] c c2 (e, done) = ap (λ b. if b then left c else waiting c) done ∙ ap left e
wait-Rest order (ns ∷ rounds) c c2 r = elim (Bool-cases c.goal_completed) [
  | inl h ↦ rw (wait_for_goal, h) (ap left (completed-Rest order (ns ++ concat rounds) c c2 r h))
  | inr h ↦
      let (c', e, r') = spin_some-Rest order ns (concat rounds) c c2 r in
      rw (wait_for_goal, h, e) (wait-Rest order rounds c' c2 r')
]

abbrev completed : Client → List Out → Client
completed c out = record { goal_completed = true; printed = c.printed ++ out }

feedback-Rest :
    (order : ℤ) (n m : ℕ) (ps : List (ℕ × List ℕ)) (p : ℕ × List ℕ) (c : Client)
    → c.goal_completed ≡ false
    → AllShow n ps
    → Shows m p
    → Rest order c
        (map feedback ps ++ (result succeeded p ∷ []))
        (completed c (feedback_lines order (length ps) n ++ result_line order m))
unfolding deliver
feedback-Rest order n m [] p c h all at_end =
    (h, completed c (result_line order m), result-line order m p c at_end, (refl, refl))
feedback-Rest order n m (q ∷ ps) p c h (one, all) at_end =
    let c' = print (feedback_line order n) c in
    (
      h,
      c',
      feedback-line order n q c one,
      subst
          (λ out.
            Rest order c' (map feedback ps ++ (result succeeded p ∷ []))
              (record { goal_completed = true; printed = out }))
          (simp append_assoc refl) (feedback-Rest order (n + 1) m ps p c' h all at_end),
    )

worker-succeeds :
    (n : ℕ) (memory : List ℕ) (results : List Bool) (tries : ℕ)
    → 2 ≤ n
    → n ≤ 47
    → length memory ≡ n
    → send_until_ok results 0 ≡ some tries
    → (f : Feedback) × Filled n n f
      × (fibonacci_worker (pos n) memory (λ j. false) false results
          ≡ finished (response succeeded n f.elements allocated f.published) tries)
worker-succeeds n memory results tries two small l ok =
    let e : last n memory (λ j. false) false results tries ≡ n =
      omega (arith, stop-uncancelled (n - 2) 2) in
    let (f, v, r) =
      (fibonacci_worker_lem n memory (λ j. false) false results tries two l ok).0
        (omega (arith, e)) in
    (
      f,
      subst (λ t. Filled n t f) e v,
      r ∙ ap (λ t. finished (response succeeded t f.elements allocated f.published) tries) e,
    )

-- The client sends the server a goal of order 2 to 47 that nobody cancels, and the worker has memory
-- for it and can send its result at last. However what the server sends is spread over the rounds of
-- the client's loop, the client leaves the loop with all of it, and has printed that the goal is
-- accepted, then each prefix of the Fibonacci numbers from three of them on, then all of them.
pub goal_lem :
    (n : ℕ) (memory : List ℕ) (results : List Bool) (tries : ℕ) (rounds : List (List Notice))
    → 2 ≤ n
    → n ≤ 47
    → length memory ≡ n
    → send_until_ok results 0 ≡ some tries
    → concat rounds
      ≡ notices (handle_goal (pos n)) (fibonacci_worker (pos n) memory (λ j. false) false results)
    → wait_for_goal (pos n) rounds at_start
      ≡ left (record {
        goal_completed = true;
        printed =
            accepted_line (pos n) ++ (feedback_lines (pos n) (n - 2) 3 ++ result_line (pos n) n);
      })
unfolding deliver goal_request_callback
goal_lem n memory results tries rounds two small l ok sent =
    let (f, v, e) = worker-succeeds n memory results tries two small l ok in
    let welcome : handle_goal (pos n) ≡ accepted = accepts n small in
    let count : length f.published ≡ n - 2 = omega (arith, v.published_count) in
    let told : concat rounds
        ≡ goal_response true
          ∷ (map feedback f.published ++ (result succeeded (n, f.elements) ∷ [])) =
      sent
      ∙ ap (λ r. notices r (fibonacci_worker (pos n) memory (λ j. false) false results)) welcome
      ∙ ap (notices accepted) e in
    let c = goal_request_callback (pos n) true at_start in
    let rest =
      feedback-Rest (pos n) 3 n f.published (n, f.elements) c refl v.prefixes (refl, v.values) in
    wait-Rest (pos n) rounds at_start _ (
      subst
        (λ ms.
          Rest (pos n) at_start ms
            (completed c (feedback_lines (pos n) (n - 2) 3 ++ result_line (pos n) n)))
        (sym told)
        (
          refl,
          c,
          refl,
          subst
              (λ k.
                Rest (pos n) c (map feedback f.published ++ (result succeeded (n, f.elements) ∷ []))
                  (completed c (feedback_lines (pos n) k 3 ++ result_line (pos n) n)))
              count rest,
        ))
