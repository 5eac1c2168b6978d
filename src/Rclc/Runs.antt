-- ===== src/Rclc/Runs.antt =====
-- Runs of a program, whatever the library's calls return.
use micro_ros_demos.Prelude.{
  ℕ, zero, suc, ◌≤◌, ◌≡◌, refl, Bool, true, false, List, [], ◌∷◌, arith, length, Bool-cases, inl,
  inr,
}
use micro_ros_demos.Rclc.{Call, Stmt, check, soft, Log, Library, exec, world_after, is_safe, verify}

-- `verify` is sound: what it accepts makes only calls that have what they need, in every run.
pub verify-exec :
    (lib : Library) (p : List Stmt) (log : Log)
    → is_safe log ≡ true
    → verify p (world_after log) ≡ true
    → is_safe (exec lib p log).1 ≡ true
unfolding exec is_safe verify world_after
verify-exec lib [] log s v = s
verify-exec lib (check c ∷ p) log s v = ground (arith, verify-exec lib p ((c, true) ∷ log))
verify-exec lib (soft c ∷ p) log s v =
    ground (arith, verify-exec lib p ((c, true) ∷ log), verify-exec lib p ((c, false) ∷ log))

-- What has gone wrong stays wrong.
pub exec-unsafe :
    (lib : Library) (p : List Stmt) (log : Log)
    → is_safe log ≡ false
    → is_safe (exec lib p log).1 ≡ false
unfolding exec is_safe
exec-unsafe lib [] log s = s
exec-unsafe lib (check c ∷ p) log s = ground (arith, exec-unsafe lib p ((c, true) ∷ log))
exec-unsafe lib (soft c ∷ p) log s = ground (arith, exec-unsafe lib p ((c, lib log c) ∷ log))

abbrev pub call_of : Stmt → Call
call_of (check c) = c
call_of (soft c) = c

-- The first `n` calls of a program, put before the calls of a log.
abbrev pub calls_after : ℕ → List Stmt → List Call → List Call
calls_after zero p made = made
calls_after (suc n) [] made = made
calls_after (suc n) (s ∷ p) made = calls_after n p (call_of s ∷ made)

abbrev pub calls : Log → List Call
calls [] = []
calls ((c, ok) ∷ log) = c ∷ calls log

-- How a run ends: with all calls of the program made, or, after some of them, with a failed one.
pub data Ends (p : List Stmt) (log : Log) (r : Bool × Log) : Type 0 where
  completed : r.0 ≡ true → calls r.1 ≡ calls_after (length p) p (calls log) → Ends p log r
  stopped :
      (n : ℕ) (c : Call) (before : Log)
      → r.0 ≡ false
      → n ≤ length p
      → r.1 ≡ (c, false) ∷ before
      → calls r.1 ≡ calls_after n p (calls log)
      → Ends p log r

longer :
    (s : Stmt) (p : List Stmt) (log : Log) (r : Bool × Log) (ok : Bool)
    → Ends p ((call_of s, ok) ∷ log) r
    → Ends (s ∷ p) log r
longer s p log r ok (completed e c) = completed e c
longer s p log r ok (stopped n c before e l h k) = stopped (suc n) c before e (omega arith) h k

-- A run makes the program's calls in their order: all of them if it completes, and else the first
-- ones, of which the last has failed.
pub exec-Ends : (lib : Library) (p : List Stmt) (log : Log) → Ends p log (exec lib p log)
unfolding exec
exec-Ends lib [] log = completed refl refl
exec-Ends lib (check c ∷ p) log = elim (Bool-cases (lib log c)) [
  | inl e ↦ rw e (
      longer (check c) p log (exec lib p ((c, true) ∷ log)) true
        (exec-Ends lib p ((c, true) ∷ log)))
  | inr e ↦ rw e (stopped 1 c log refl (omega arith) refl refl)
]
exec-Ends lib (soft c ∷ p) log =
    longer (soft c) p log (exec lib p ((c, lib log c) ∷ log)) (lib log c)
      (exec-Ends lib p ((c, lib log c) ∷ log))
