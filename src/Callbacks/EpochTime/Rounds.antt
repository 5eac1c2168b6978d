-- ===== src/Callbacks/EpochTime/Rounds.antt =====
-- What the timer prints, and when the published time is the time.
use mathlib.Core.List.{append_assoc, append-nil}
use micro_ros_demos.Prelude.{
  ℕ, suc, ◌+◌, ◌^◌, ◌≡◌, ◌∙◌, ◌↔◌, refl, sym, ap, Bool, true, false, List, [], ◌∷◌, ◌++◌, map,
  if◌then◌else◌, arith,
}
use micro_ros_demos.Prelude.Int.{ℤ, wrap, Fits, wrap-eq_iff}
use micro_ros_demos.Callbacks.EpochTime.{
  Line, failed_status, unix_time, Publisher, fresh, Round, timer_callback, rounds,
}

-- The times of the calls that published.
abbrev pub sent_times : List Round → List ℤ
sent_times [] = []
sent_times (r ∷ rs) = (if r.ok then r.time ∷ [] else []) ++ sent_times rs

abbrev pub AllFit : List ℤ → Type 0
AllFit [] = Unit {0}
AllFit (t ∷ ts) = Fits (2 ^ 31) t × AllFit ts

kept :
    (b : Bool) (t : ℤ) (ts : List ℤ)
    → map (wrap (2 ^ 31)) ((if b then t ∷ [] else []) ++ ts)
      ≡ (if b then wrap (2 ^ 31) t ∷ [] else []) ++ map (wrap (2 ^ 31)) ts
kept true t ts = refl
kept false t ts = refl

rounds-published :
    (rs : List Round) (s : Publisher)
    → (rounds rs s).published ≡ s.published ++ map (wrap (2 ^ 31)) (sent_times rs)
unfolding rounds timer_callback
rounds-published [] s = sym (append-nil s.published)
rounds-published (r ∷ rs) s =
    rounds-published rs (timer_callback r s)
    ∙ append_assoc s.published (if r.ok then wrap (2 ^ 31) r.time ∷ [] else [])
        (map (wrap (2 ^ 31)) (sent_times rs))
    ∙ ap (◌++◌ s.published) (sym (kept r.ok r.time (sent_times rs)))

map-wrap_iff : (ts : List ℤ) → (map (wrap (2 ^ 31)) ts ≡ ts) ↔ AllFit ts
map-wrap_iff [] = (λ e. tt, λ a. refl)
map-wrap_iff (t ∷ ts) =
    let one = wrap-eq_iff (2 ^ 31) t (omega arith) in
    let rest = map-wrap_iff ts in
    (λ e. (one.0 (cc), rest.0 (cc)), λ a. let e = one.1 a.0 in let f = rest.1 a.1 in cc)

-- The times that are printed, and how many calls of the library were reported as failed.
abbrev pub printed_times : List Line → List ℤ
printed_times [] = []
printed_times (failed_status ∷ ls) = printed_times ls
printed_times (unix_time t ∷ ls) = t ∷ printed_times ls

abbrev pub failures : List Line → ℕ
failures [] = 0
failures (failed_status ∷ ls) = suc (failures ls)
failures (unix_time t ∷ ls) = failures ls

abbrev pub missed : List Round → ℕ
missed [] = 0
missed (r ∷ rs) = (if r.synced then 0 else 1) + (if r.ok then 0 else 1) + missed rs

printed_times-append :
    (xs ys : List Line) → printed_times (xs ++ ys) ≡ printed_times xs ++ printed_times ys
printed_times-append [] ys = refl
printed_times-append (failed_status ∷ xs) ys = printed_times-append xs ys
printed_times-append (unix_time t ∷ xs) ys = ap (λ l. t ∷ l) (printed_times-append xs ys)

failures-append : (xs ys : List Line) → failures (xs ++ ys) ≡ failures xs + failures ys
failures-append [] ys = omega arith
failures-append (failed_status ∷ xs) ys = omega (arith, failures-append xs ys)
failures-append (unix_time t ∷ xs) ys = failures-append xs ys

-- The lines of one call.
abbrev lines_of : Round → List Line
lines_of r =
    (if r.synced then [] else failed_status ∷ [])
    ++ ((if r.ok then [] else failed_status ∷ []) ++ (unix_time r.time ∷ []))

lines_of-time :
    (b ok : Bool) (t : ℤ)
    → printed_times (lines_of (record { synced = b; time = t; ok = ok })) ≡ t ∷ []
lines_of-time true true t = refl
lines_of-time true false t = refl
lines_of-time false true t = refl
lines_of-time false false t = refl

lines_of-failures :
    (b ok : Bool) (t : ℤ)
    → failures (lines_of (record { synced = b; time = t; ok = ok }))
      ≡ (if b then 0 else 1) + (if ok then 0 else 1)
lines_of-failures true true t = refl
lines_of-failures true false t = refl
lines_of-failures false true t = refl
lines_of-failures false false t = refl

rounds-times :
    (rs : List Round) (s : Publisher)
    → printed_times (rounds rs s).lines ≡ printed_times s.lines ++ map (λ r. r.time) rs
unfolding rounds timer_callback
rounds-times [] s = sym (append-nil (printed_times s.lines))
rounds-times (r ∷ rs) s =
    rounds-times rs (timer_callback r s)
    ∙ ap (λ l. l ++ map (λ r. r.time) rs)
        (printed_times-append s.lines (lines_of r)
          ∙ ap (◌++◌ (printed_times s.lines)) (lines_of-time r.synced r.ok r.time))
    ∙ append_assoc (printed_times s.lines) (r.time ∷ []) (map (λ r. r.time) rs)

rounds-failures :
    (rs : List Round) (s : Publisher) → failures (rounds rs s).lines ≡ failures s.lines + missed rs
unfolding rounds timer_callback
rounds-failures [] s = omega arith
rounds-failures (r ∷ rs) s = omega (
  arith,
  rounds-failures rs (timer_callback r s),
  failures-append s.lines (lines_of r),
  lines_of-failures r.synced r.ok r.time,
)

-- Whatever each call of the timer meets, the lines of the calls show the time of each of them, in
-- order and in full, and one message for each synchronisation or publication that failed. The
-- numbers that are published are the times of those calls that published exactly if all of these
-- times fit an int32_t.
pub rounds_lem :
    (rs : List Round)
    → (printed_times (rounds rs fresh).lines ≡ map (λ r. r.time) rs)
      × (failures (rounds rs fresh).lines ≡ missed rs)
      × (((rounds rs fresh).published ≡ sent_times rs) ↔ AllFit (sent_times rs))
rounds_lem rs = (
  rounds-times rs fresh,
  omega (arith, rounds-failures rs fresh),
  rw (rounds-published rs fresh) (map-wrap_iff (sent_times rs)),
)
