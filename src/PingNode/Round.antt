-- ===== src/PingNode/Round.antt =====
-- What a node does between two ticks of its timer.
use mathlib.Core.Path.{ap₂}
use mathlib.Core.List.{append_assoc, append-nil}
use micro_ros_demos.Prelude.{
  ℕ, map, ◌+◌, ◌≡◌, ◌∙◌, refl, sym, ap, true, false, List, [], ◌∷◌, ◌++◌, arith, if◌then◌else◌,
}
use micro_ros_demos.PingNode.{
  Header, PingNode, same_text, ping_timer_callback, ping_subscription_callback,
  pong_subscription_callback,
}

-- A message that the executor hands to a callback.
pub data Received : Type 0 where
  ping pong : Header → Received

abbrev pub handle : Received → PingNode → PingNode
handle (ping h) s = ping_subscription_callback h s
handle (pong h) s = pong_subscription_callback h s

abbrev pub handle_all : List Received → PingNode → PingNode
handle_all [] s = s
handle_all (r ∷ rs) s = handle_all rs (handle r s)

-- How many of the messages are pongs with this text, and which of them are pings with another.
abbrev pub own_pongs : List ℕ → List Received → ℕ
own_pongs text [] = 0
own_pongs text (ping h ∷ rs) = own_pongs text rs
own_pongs text (pong h ∷ rs) =
    if same_text text h.frame_id then 1 + own_pongs text rs else own_pongs text rs

abbrev pub foreign_pings : List ℕ → List Received → List Header
foreign_pings text [] = []
foreign_pings text (pong h ∷ rs) = foreign_pings text rs
foreign_pings text (ping h ∷ rs) =
    if same_text text h.frame_id then foreign_pings text rs else h ∷ foreign_pings text rs

-- A node after it has handled some messages.
record Handled (rs : List Received) (s t : PingNode) : Type 0 where
  same_ping : t.outcoming_ping ≡ s.outcoming_ping
  same_pings : t.pings ≡ s.pings
  counted : t.pong_count ≡ s.pong_count + own_pongs s.outcoming_ping.frame_id rs
  answered : t.pongs ≡ s.pongs ++ foreign_pings s.outcoming_ping.frame_id rs

-- One message changes what is counted and answered as it says.
handle-Handled : (r : Received) (s : PingNode) → Handled (r ∷ []) s (handle r s)
unfolding ping_subscription_callback pong_subscription_callback
handle-Handled (ping h) s = record {
  same_ping = ground arith;
  same_pings = ground arith;
  counted = ground arith;
  answered = ground (arith, append-nil s.pongs);
}
handle-Handled (pong h) s = record {
  same_ping = ground arith;
  same_pings = ground arith;
  counted = ground arith;
  answered = ground (arith, append-nil s.pongs);
}

own_pongs-cons :
    (text : List ℕ) (r : Received) (rs : List Received)
    → own_pongs text (r ∷ rs) ≡ own_pongs text (r ∷ []) + own_pongs text rs
own_pongs-cons text (ping h) rs = omega arith
own_pongs-cons text (pong h) rs = ground arith

foreign_pings-cons :
    (text : List ℕ) (r : Received) (rs : List Received)
    → foreign_pings text (r ∷ rs) ≡ foreign_pings text (r ∷ []) ++ foreign_pings text rs
foreign_pings-cons text (ping h) rs = ground arith
foreign_pings-cons text (pong h) rs = refl

handle_all-Handled : (rs : List Received) (s : PingNode) → Handled rs s (handle_all rs s)
handle_all-Handled [] s = record {
  same_ping = refl;
  same_pings = refl;
  counted = omega arith;
  answered = sym (append-nil s.pongs);
}
handle_all-Handled (r ∷ rs) s =
    let one = handle-Handled r s in
    let rest = handle_all-Handled rs (handle r s) in
    let text : List ℕ = s.outcoming_ping.frame_id in
    let same : (handle r s).outcoming_ping.frame_id ≡ text = ap (λ h. h.frame_id) one.same_ping in
    record {
      same_ping = rest.same_ping ∙ one.same_ping;
      same_pings = rest.same_pings ∙ one.same_pings;
      counted =
          rest.counted
          ∙ ap₂ ◌+◌ one.counted (ap (λ t. own_pongs t rs) same)
          ∙ omega (arith, own_pongs-cons text r rs);
      answered =
          rest.answered
          ∙ ap₂ ◌++◌ one.answered (ap (λ t. foreign_pings t rs) same)
          ∙ append_assoc s.pongs (foreign_pings text (r ∷ [])) (foreign_pings text rs)
          ∙ ap (◌++◌ s.pongs) (sym (foreign_pings-cons text r rs));
    }

-- When the timer has fired and the node has then handled any messages in any order: it has sent
-- one ping, with the time and the new number, its count is the number of pongs to that ping among
-- the messages, and it has answered the pings among them with another text, in order, and no others.
pub ping_round_lem :
    (print : ℕ → ℕ → List ℕ) (seq_no sec nanosec : ℕ) (rs : List Received) (s : PingNode)
    → let sent : Header = record {
      sec = sec;
      nanosec = nanosec;
      frame_id = print seq_no s.device_id;
    } in
      let t = handle_all rs (ping_timer_callback print true seq_no sec nanosec s) in
      (t.pings ≡ s.pings ++ (sent ∷ []))
      × (t.pong_count ≡ own_pongs sent.frame_id rs)
      × (t.pongs ≡ s.pongs ++ foreign_pings sent.frame_id rs)
unfolding ping_timer_callback
ping_round_lem print seq_no sec nanosec rs s =
    let h = handle_all-Handled rs (ping_timer_callback print true seq_no sec nanosec s) in
    (h.same_pings, h.counted ∙ omega arith, h.answered)

-- What the nodes publish when each receives the ping `sent`, as it comes back to its sender.
abbrev pub answers : Header → List PingNode → List Received
answers sent [] = []
answers sent (o ∷ os) =
    map pong (ping_subscription_callback sent (record o { pongs = [] })).pongs ++ answers sent os

-- Their own pings have another text.
abbrev pub AllOthers : List ℕ → List PingNode → Type 0
AllOthers text [] = Unit {0}
AllOthers text (o ∷ os) = (same_text o.outcoming_ping.frame_id text ≡ false) × AllOthers text os
