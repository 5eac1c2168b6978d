-- ===== src/Multithread/Invariant.antt =====
-- What main has torn down, and which threads have ended.
use native.Mathlib.Decide.{ℕ_discrete, dec_lt}
use micro_ros_demos.Prelude.{
  ℕ, suc, ◌≤◌, ◌<◌, ◌≡◌, ◌≢◌, ◌∙◌, refl, sym, subst, Bool, true, false, arith, update_other, inl,
  inr, Bool-cases,
}
use micro_ros_demos.Multithread.{
  PublishPc, publishing, ended, MainPc, creating, setting_timeout, spinning, finishing_subscription,
  joining, finishing, finishing_node, returned, System, start, at, thread_at, publisher_number,
  PublishStep, allocate, allocate_fails, enter_loop, leave_loop, publish, wake, Step, thread_step,
  create, created, set_timeout, set_timeout_fails, spin_ends, subscription_fini,
  subscription_fini_fails, join, publisher_fini, publisher_fini_fails, joined, node_fini,
  node_fini_fails, Reach, here, next,
}

-- `down` threads are known to have ended when main stands there.
abbrev Agrees : MainPc → ℕ → Type 0
Agrees (creating k) down = down ≡ 0
Agrees setting_timeout down = down ≡ 0
Agrees spinning down = down ≡ 0
Agrees finishing_subscription down = down ≡ 0
Agrees (joining i) down = down ≡ i
Agrees (finishing i) down = down ≡ suc i
Agrees finishing_node down = down ≡ publisher_number
Agrees returned down = Unit {0}

pub record Inv (s : System) (down : ℕ) : Type 0 where
  below : (i : ℕ) → i < down → s.thread i ≡ ended
  above : (i : ℕ) → down ≤ i → s.publisher_live i ≡ true
  main_agrees : Agrees s.main down
  node_last : s.node_live ≡ false → (down ≡ publisher_number) × (s.main ≡ returned)

start-Inv : Inv start 0
start-Inv = record {
  below = λ i h. absurd (omega (arith, h));
  above = λ i h. refl;
  main_agrees = refl;
  node_last = λ e. cc;
}

not_ended : (flag : Bool) (pc pc' : PublishPc) → PublishStep flag pc pc' → pc ≢ ended
not_ended flag pc pc' allocate e = cc
not_ended flag pc pc' allocate_fails e = cc
not_ended flag pc pc' (enter_loop h) e = cc
not_ended flag pc pc' (leave_loop h) e = cc
not_ended flag pc pc' publish e = cc
not_ended flag pc pc' wake e = cc

module _ (s : System) (down : ℕ) (v : Inv s down) where
  agrees : (m : MainPc) → s.main ≡ m → Agrees m down
  agrees m e = subst (λ m. Agrees m down) e v.main_agrees

  -- Main goes on, and nothing else changes.
  at-Inv : (m : MainPc) → s.main ≢ returned → Agrees m down → Inv (at s m) down
  at-Inv m ne a = record {
    below = v.below;
    above = v.above;
    main_agrees = a;
    node_last = λ e. absurd (ne (v.node_last e).1);
  }

  -- A thread moves that is not known to have ended.
  thread-Inv : (i : ℕ) (pc : PublishPc) → s.thread i ≢ ended → Inv (thread_at s i pc) down
  thread-Inv i pc ne = record {
    below = λ j h.
        update_other s.thread i j pc
          (λ e. ne (subst (λ k. s.thread k ≡ ended) (sym e) (v.below j h)))
        ∙ v.below j h;
    above = v.above;
    main_agrees = v.main_agrees;
    node_last = v.node_last;
  }

-- Every step keeps the invariant. A join counts one more thread.
Step-Inv : {s t : System} → Step s t → (down : ℕ) → Inv s down → (down' : ℕ) × Inv t down'
Step-Inv {s} (thread_step i pc pc' ne lt e st) down v =
    (down, thread-Inv s down v i pc' (λ h. not_ended s.exit_flag pc pc' st (sym e ∙ h)))
Step-Inv {s} (create k e lt) down v =
    let none_down : down ≡ 0 = agrees s down v (creating k) e in
    (
      down,
      record {
        below = λ i h. absurd (omega (arith, none_down, h));
        above = v.above;
        main_agrees = none_down;
        node_last = λ d. absurd (let r = (v.node_last d).1 in cc);
      },
    )
Step-Inv {s} (created e) down v = (
  down,
  at-Inv s down v setting_timeout (λ r. cc) (agrees s down v (creating publisher_number) e),
)
Step-Inv {s} (set_timeout e) down v =
    (down, at-Inv s down v spinning (λ r. cc) (agrees s down v setting_timeout e))
Step-Inv {s} (set_timeout_fails e) down v = (down, at-Inv s down v returned (λ r. cc) tt)
Step-Inv {s} (spin_ends e) down v =
    let w = at-Inv s down v finishing_subscription (λ r. cc) (agrees s down v spinning e) in
    (
      down,
      record {
        below = w.below;
        above = w.above;
        main_agrees = w.main_agrees;
        node_last = w.node_last;
      },
    )
Step-Inv {s} (subscription_fini e) down v =
    (down, at-Inv s down v (joining 0) (λ r. cc) (agrees s down v finishing_subscription e))
Step-Inv {s} (subscription_fini_fails e) down v = (down, at-Inv s down v returned (λ r. cc) tt)
Step-Inv {s} (join i e lt is_ended) down v =
    let same : down ≡ i = agrees s down v (joining i) e in
    (
      suc down,
      record {
        below = λ j h. elim (ℕ_discrete i j) [
          | yes q ↦ subst (λ k. s.thread k ≡ ended) q is_ended
          | no ne ↦ v.below j (omega (arith, ne, same))
        ];
        above = λ j h. v.above j (omega arith);
        main_agrees = omega (arith, same);
        node_last = λ d. absurd (let r = (v.node_last d).1 in cc);
      },
    )
Step-Inv {s} (publisher_fini i e) down v =
    let same : down ≡ suc i = agrees s down v (finishing i) e in
    (
      down,
      record {
        below = v.below;
        above = λ j h.
            update_other s.publisher_live i j false (λ q. omega (arith, q, same)) ∙ v.above j h;
        main_agrees = same;
        node_last = λ d. absurd (let r = (v.node_last d).1 in cc);
      },
    )
Step-Inv {s} (publisher_fini_fails i e) down v = (down, at-Inv s down v returned (λ r. cc) tt)
Step-Inv {s} (joined e) down v =
    (down, at-Inv s down v finishing_node (λ r. cc) (agrees s down v (joining publisher_number) e))
Step-Inv {s} (node_fini e) down v = (
  down,
  record {
    below = v.below;
    above = v.above;
    main_agrees = tt;
    node_last = λ d. (agrees s down v finishing_node e, refl);
  },
)
Step-Inv {s} (node_fini_fails e) down v = (down, at-Inv s down v returned (λ r. cc) tt)

pub Reach-Inv : {s t : System} → Reach s t → (down : ℕ) → Inv s down → (down' : ℕ) × Inv t down'
Reach-Inv here down v = (down, v)
Reach-Inv (next r st) down v = let (d, w) = Reach-Inv r down v in Step-Inv st d w

-- However the threads and main take turns, and whichever calls fail, a thread that is about to
-- publish still has its publisher and its node: main finishes a publisher only when its thread has
-- ended, and the node only when all have.
pub publishing_live :
    (t : System) (i : ℕ)
    → Reach start t
    → i < publisher_number
    → t.thread i ≡ publishing
    → (t.publisher_live i ≡ true) × (t.node_live ≡ true)
publishing_live t i r lt p =
    let (down, v) = Reach-Inv r 0 start-Inv in
    let up : down ≤ i = elim (dec_lt i down) [
      | yes h ↦ absurd (let e = v.below i h in cc)
      | no h ↦ omega (arith, h)
    ] in
    (
      v.above i up,
      elim (Bool-cases t.node_live) [
        | inl e ↦ e
        | inr e ↦ absurd (omega (arith, (v.node_last e).0, up))
      ],
    )
