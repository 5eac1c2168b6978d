-- ===== src/ParameterServer/Rate.antt =====
-- What the server publishes while its parameters change.
use mathlib.Core.Path.{ap₂}
use mathlib.Core.List.{append_assoc, append-nil}
use micro_ros_demos.Prelude.{
  ℕ, zero, suc, ◌+◌, ◌^◌, ◌<◌, ◌≡◌, ◌∙◌, refl, sym, ap, Bool, true, false, List, [], ◌∷◌, ◌++◌,
  Option, some, none, arith, if◌then◌else◌, length, Bool-cases, inl, inr,
}
use micro_ros_demos.ParameterServer.{
  Name, publish_toogle, publish_rate_ms, other_name, Value, bool_value, integer_value, other_value,
  Parameter, Server, timer_callback, change, on_parameter_changed,
}

pub data Event : Type 0 where
  tick : Event
  changed : Option Parameter → Option Parameter → Event

abbrev pub handle : (ℕ → Bool) → Event → Server → Option Server
handle exchange tick s = timer_callback s
handle exchange (changed old new) s = some (on_parameter_changed exchange old new s).1

abbrev pub handle_all : (ℕ → Bool) → List Event → Server → Option Server
handle_all exchange [] s = some s
handle_all exchange (e ∷ es) s = elim (handle exchange e s) [
  | none ↦ none
  | some t ↦ handle_all exchange es t
]

-- Whether publishing is on after a change, and how many ticks find it on.
abbrev toggled : Bool → Name → Value → Bool
toggled on publish_toogle (bool_value b) = b
toggled on publish_toogle (integer_value n) = on
toggled on publish_toogle other_value = on
toggled on publish_rate_ms v = on
toggled on other_name v = on

abbrev on_after : Bool → Option Parameter → Bool
on_after on none = on
on_after on (some p) = toggled on p.name p.value

abbrev pub ticks_on : Bool → List Event → ℕ
ticks_on on [] = 0
ticks_on on (tick ∷ es) = if on then suc (ticks_on on es) else ticks_on on es
ticks_on on (changed old new ∷ es) = ticks_on (on_after on new) es

abbrev pub count_up : ℕ → ℕ → List ℕ
count_up m zero = []
count_up m (suc n) = m ∷ count_up (m + 1) n

change-keeps :
    (exchange : ℕ → Bool) (n : Name) (v : Value) (s : Server)
    → ((change exchange n v s).publish ≡ toggled s.publish n v)
      × ((change exchange n v s).msg ≡ s.msg)
      × ((change exchange n v s).sent ≡ s.sent)
change-keeps exchange publish_toogle (bool_value b) s = (refl, refl, refl)
change-keeps exchange publish_toogle (integer_value n) s = (refl, refl, refl)
change-keeps exchange publish_toogle other_value s = (refl, refl, refl)
change-keeps exchange publish_rate_ms (bool_value b) s = (refl, refl, refl)
change-keeps exchange publish_rate_ms (integer_value n) s =
    (ground arith, ground arith, ground arith)
change-keeps exchange publish_rate_ms other_value s = (refl, refl, refl)
change-keeps exchange other_name v s = (refl, refl, refl)

on_parameter_changed-keeps :
    (exchange : ℕ → Bool) (old new : Option Parameter) (s : Server)
    → let t = (on_parameter_changed exchange old new s).1 in
      (t.publish ≡ on_after s.publish new) × (t.msg ≡ s.msg) × (t.sent ≡ s.sent)
unfolding on_parameter_changed
on_parameter_changed-keeps exchange none none s = (refl, refl, refl)
on_parameter_changed-keeps exchange (some old) none s = (refl, refl, refl)
on_parameter_changed-keeps exchange none (some new) s = change-keeps exchange new.name new.value s
on_parameter_changed-keeps exchange (some old) (some new) s =
    change-keeps exchange new.name new.value s

abbrev published : Server → Server
published s = record s { sent = s.sent ++ (s.msg ∷ []); msg = s.msg + 1 }

timer-on :
    (s : Server) → s.publish ≡ true → s.msg + 1 < 2 ^ 31 → timer_callback s ≡ some (published s)
unfolding timer_callback
timer-on s e h = ground arith

timer-off : (s : Server) → s.publish ≡ false → timer_callback s ≡ some s
unfolding timer_callback
timer-off s e = ground arith

abbrev then_all : (ℕ → Bool) → List Event → Option Server → Option Server
then_all exchange es none = none
then_all exchange es (some t) = handle_all exchange es t

-- A server that has handled the events: it has published `n` numbers more.
pub record Published (s : Server) (n : ℕ) (r : Option Server) : Type 0 where
  pub after : Server
  pub returns : r ≡ some after
  pub msg_after : after.msg ≡ s.msg + n
  pub sent_after : after.sent ≡ s.sent ++ count_up s.msg n

-- As long as `msg.data` cannot reach INT32_MAX, the server handles ticks of its timer and changed
-- parameters in any order: it publishes one number at each tick that finds publishing on, each one
-- above the one before, and none at the others. Only "publish_toogle" with a Boolean value changes
-- whether it is on; deletions, other names and other types do not.
pub handle_all_lem :
    (exchange : ℕ → Bool) (es : List Event) (s : Server)
    → s.msg + length es < 2 ^ 31
    → Published s (ticks_on s.publish es) (handle_all exchange es s)
handle_all_lem exchange [] s h = record {
  after = s;
  returns = refl;
  msg_after = omega arith;
  sent_after = sym (append-nil s.sent);
}
handle_all_lem exchange (tick ∷ es) s h = elim (Bool-cases s.publish) [
  | inl e ↦
      let r = handle_all_lem exchange es (published s) (omega arith) in
      let count : ticks_on s.publish (tick ∷ es) ≡ suc (ticks_on s.publish es) =
        ap (λ b. if b then suc (ticks_on s.publish es) else ticks_on s.publish es) e in
      record {
        after = r.after;
        returns = ap (then_all exchange es) (timer-on s e (omega arith)) ∙ r.returns;
        msg_after = omega (arith, r.msg_after, count);
        sent_after =
            r.sent_after
            ∙ append_assoc s.sent (s.msg ∷ []) (count_up (s.msg + 1) (ticks_on s.publish es))
            ∙ ap (λ n. s.sent ++ count_up s.msg n) (sym count);
      }
  | inr e ↦
      let r = handle_all_lem exchange es s (omega arith) in
      let count : ticks_on s.publish (tick ∷ es) ≡ ticks_on s.publish es =
        ap (λ b. if b then suc (ticks_on s.publish es) else ticks_on s.publish es) e in
      record {
        after = r.after;
        returns = ap (then_all exchange es) (timer-off s e) ∙ r.returns;
        msg_after = r.msg_after ∙ ap (◌+◌ s.msg) (sym count);
        sent_after = r.sent_after ∙ ap (λ n. s.sent ++ count_up s.msg n) (sym count);
      }
]
handle_all_lem exchange (changed old new ∷ es) s h =
    let t = (on_parameter_changed exchange old new s).1 in
    let (on, msg, sent) = on_parameter_changed-keeps exchange old new s in
    let r = handle_all_lem exchange es t (omega arith) in
    record {
      after = r.after;
      returns = r.returns;
      msg_after = r.msg_after ∙ ap₂ ◌+◌ msg (ap (λ b. ticks_on b es) on);
      sent_after = r.sent_after ∙ ap₂ ◌++◌ sent (ap₂ count_up msg (ap (λ b. ticks_on b es) on));
    }
