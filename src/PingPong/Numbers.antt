-- ===== src/PingPong/Numbers.antt =====
-- The numbers of the messages that the component sends over many notifications.
use micro_ros_demos.Prelude.{ℕ, ◌+◌, ◌^◌, ◌<◌, ◌≡◌, refl, List, [], ◌∷◌, arith}
use micro_ros_demos.Channel.{Channel, Outcome, done, ◌>>=◌}
use micro_ros_demos.Rclc.{Library}
use micro_ros_demos.PingPong.Handler.{Component, Setting, Incoming, notified}
use micro_ros_demos.PingPong.Ready.{AllSucceed, Readable}
use micro_ros_demos.PingPong.Numbered.{Numbered, answers, cap, same_numbers, notified-Sends}

-- A notification: its channel, what the executor finds then, and what has become of the region from
-- the VMM since the one before, by the VMM's pushes and the transport's pops.
pub record Notification : Type 0 where
  pub channel : ℕ
  pub incoming : List Incoming
  pub region : Channel → Channel

abbrev pub arrive : (Channel → Channel) → Component → Component
arrive f c = record c { transport = record c.transport { vmm2pp = f c.transport.vmm2pp } }

module _ (e : Setting) (lib : Library) (print : ℕ → List ℕ) where
  -- Notifications in order.
  abbrev pub run : List Notification → Component → Outcome Component
  run [] c = done c
  run (n ∷ ns) c = notified e lib print n.incoming n.channel (arrive n.region c) >>= λ c'. run ns c'

  -- How many messages they send.
  abbrev pub total : List Notification → Component → ℕ
  total [] c = 0
  total (n ∷ ns) c =
      answers n.incoming n.channel (arrive n.region c)
      + elim (notified e lib print n.incoming n.channel (arrive n.region c)) [
        | done c' ↦ total ns c'
        | _ ↦ 0
      ]

module _ (e : Setting) (lib : Library) (print : ℕ → List ℕ) (ok : AllSucceed lib) where
  -- The MAC addresses can be read and no call of the client library fails. Let the messages
  -- published so far be numbered from 0, in headers with the room of a new one, and the numbers
  -- stay below 2^31. After any notifications, whatever happens to the region from the VMM between
  -- them, the component has returned from each of them, all messages are numbered from 0 without a
  -- gap, pings and pongs together, and there is one more for each notification that the guest is
  -- ready and, while a packet is pending in that region, for each message that the executor found.
  -- A message's size is the length of its number's text, of which it holds what the room leaves.
  pub numbers_lem :
      Readable e
      → (ns : List Notification) (c : Component) → Numbered print (cap e lib print ok) c
      → c.seq_num + total e lib print ns c < 2 ^ 31
      → (c' : Component) × (run e lib print ns c ≡ done c')
        × Numbered print (cap e lib print ok) c'
        × (c'.seq_num ≡ c.seq_num + total e lib print ns c)
  numbers_lem r [] c v h = (c, refl, v, omega arith)
  numbers_lem r (n ∷ ns) c v h =
      let c0 : Component = arrive n.region c in
      let first = notified-Sends e lib print ok r n.incoming n.channel c0 (omega arith) in
      let later : total e lib print (n ∷ ns) c
          ≡ answers n.incoming n.channel c0 + total e lib print ns first.after =
        rw first.returns refl in
      let (c', returns, v', count) =
        numbers_lem r ns first.after
          (first.numbers (same_numbers e lib print ok c c0 refl refl refl refl v))
          (omega (arith, h, later, first.count)) in
      (c', rw first.returns returns, v', omega (arith, count, first.count, later))
