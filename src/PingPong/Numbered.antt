-- ===== src/PingPong/Numbered.antt =====
-- The messages that the component sends for one notification, and their numbers.
use micro_ros_demos.Prelude.{
  ℕ, zero, suc, ◌+◌, ◌-◌, ◌^◌, ◌<◌, ltb, ◌≡◌, ◌∙◌, refl, sym, ap, true, List, [], ◌∷◌, ◌++◌, arith,
  ◌==◌, if◌then◌else◌, length, take, map, Bool-cases, inl, inr,
}
use micro_ros_demos.Spsc.{spsc_empty}
use micro_ros_demos.Channel.{Outcome, done, ◌>>=◌}
use micro_ros_demos.Rclc.{Library}
use micro_ros_demos.Rclc.Calls.{spin_some}
use micro_ros_demos.PingPong.{chan_pingpong, chan_ready}
use micro_ros_demos.PingPong.Handler.{
  Header, Sent, Component, Setting, Incoming, ping, pong, numbered, publish, transport_init,
  send_impl, send_ping, send_pong, answer, notified,
}
use micro_ros_demos.PingPong.Ready.{
  AllSucceed, Readable, initialised, transport_init-initialised, ping_sent, send_ping-returns,
}

-- How many messages a notification sends.
abbrev pub answers : List Incoming → ℕ → Component → ℕ
answers incoming ch c =
    if ch == chan_ready
    then 1
    else if ch == chan_pingpong
    then if (spsc_empty c.transport.vmm2pp.queue).0 then 0 else length incoming
    else 0

-- The size and the text of messages by their number.
abbrev pub texts : (ℕ → List ℕ) → ℕ → ℕ → List (ℕ × List ℕ)
texts print cap zero = []
texts print cap (suc n) = texts print cap n ++ ((length (print n), take (cap - 1) (print n)) ∷ [])

abbrev pub shown : Sent → ℕ × List ℕ
shown s = (s.header.size, s.header.frame_id)

map-append : (xs ys : List Sent) → map shown (xs ++ ys) ≡ map shown xs ++ map shown ys
map-append [] ys = refl
map-append (x ∷ xs) ys = ap (λ l. shown x ∷ l) (map-append xs ys)

-- The messages so far are numbered from 0, and both headers have room for `cap` bytes.
pub record Numbered (print : ℕ → List ℕ) (cap : ℕ) (c : Component) : Type 0 where
  pub ping_room : c.outgoing_ping.capacity ≡ cap
  pub pong_room : c.outgoing_pong.capacity ≡ cap
  pub sent_texts : map shown c.sent ≡ texts print cap c.seq_num

texts-next :
    (print : ℕ → List ℕ) (cap n i : ℕ) (hdr : Header) (sent : List Sent)
    → hdr.capacity ≡ cap
    → map shown sent ≡ texts print cap n
    → map shown (sent ++ (record { by = i; header = numbered print n hdr } ∷ []))
      ≡ texts print cap (n + 1)
texts-next print cap n i hdr sent room so_far =
    let next : n + 1 ≡ suc n = omega arith in
    map-append sent (record { by = i; header = numbered print n hdr } ∷ [])
    ∙ ap (λ k. map shown sent ++ ((length (print n), take (k - 1) (print n)) ∷ [])) room
    ∙ ap (λ l. l ++ ((length (print n), take (cap - 1) (print n)) ∷ [])) so_far
    ∙ ap (texts print cap) (sym next)

module _ (e : Setting) (lib : Library) (print : ℕ → List ℕ) (ok : AllSucceed lib) where
  abbrev pub cap : ℕ
  cap = e.new_header.capacity

  -- `r` is a return with `n` messages more.
  pub record Sends (n : ℕ) (c : Component) (r : Outcome Component) : Type 0 where
    pub after : Component
    pub returns : r ≡ done after
    pub count : after.seq_num ≡ c.seq_num + n
    pub numbers : Numbered print cap c → Numbered print cap after

  pong_sent : Component → Component
  pong_sent c = record c {
    outgoing_pong = numbered print c.seq_num c.outgoing_pong;
    seq_num = c.seq_num + 1;
    sent = c.sent ++ (record { by = 1; header = numbered print c.seq_num c.outgoing_pong } ∷ []);
    log = (publish "/microROS/pong" 1, true) ∷ c.log;
  }

  send_pong-returns :
      (c : Component) → c.seq_num + 1 < 2 ^ 31 → send_pong e lib print c ≡ done (pong_sent c)
  unfolding send_pong send_impl pong_sent
  send_pong-returns c h =
      let counts : ltb (c.seq_num + 1) (2 ^ 31) ≡ true = ground arith in
      rw (ok c.log (publish "/microROS/pong" 1), counts) refl

  send_ping-Sends : (c : Component) → c.seq_num + 1 < 2 ^ 31 → Sends 1 c (send_ping e lib print c)
  send_ping-Sends c h = record {
    after = ping_sent e lib print ok c;
    returns = send_ping-returns e lib print ok c h;
    count = refl;
    numbers = λ v. record {
      ping_room = v.ping_room;
      pong_room = v.pong_room;
      sent_texts = texts-next print cap c.seq_num 0 c.outgoing_ping c.sent v.ping_room v.sent_texts;
    };
  }

  send_pong-Sends : (c : Component) → c.seq_num + 1 < 2 ^ 31 → Sends 1 c (send_pong e lib print c)
  unfolding pong_sent
  send_pong-Sends c h = record {
    after = pong_sent c;
    returns = send_pong-returns c h;
    count = refl;
    numbers = λ v. record {
      ping_room = v.ping_room;
      pong_room = v.pong_room;
      sent_texts = texts-next print cap c.seq_num 1 c.outgoing_pong c.sent v.pong_room v.sent_texts;
    };
  }

  answer-Sends :
      (ms : List Incoming) (c : Component)
      → c.seq_num + length ms < 2 ^ 31
      → Sends (length ms) c (answer e lib print ms c)
  unfolding answer
  answer-Sends [] c h = record { after = c; returns = refl; count = omega arith; numbers = λ v. v }
  answer-Sends (ping ∷ ms) c h =
      let first = send_pong-Sends c (omega arith) in
      let rest = answer-Sends ms first.after (omega (arith, first.count)) in
      record {
        after = rest.after;
        returns = rw (answer, first.returns) rest.returns;
        count = omega (arith, rest.count, first.count);
        numbers = λ v. rest.numbers (first.numbers v);
      }
  answer-Sends (pong ∷ ms) c h =
      let first = send_ping-Sends c (omega arith) in
      let rest = answer-Sends ms first.after (omega (arith, first.count)) in
      record {
        after = rest.after;
        returns = rw (answer, first.returns) rest.returns;
        count = omega (arith, rest.count, first.count);
        numbers = λ v. rest.numbers (first.numbers v);
      }

  polled : Component → Component
  polled c = record c {
    transport = record c.transport {
      vmm2pp = record c.transport.vmm2pp { queue = (spsc_empty c.transport.vmm2pp.queue).1 };
    };
  }

  pub same_numbers :
      (c c' : Component)
      → c'.outgoing_ping ≡ c.outgoing_ping
      → c'.outgoing_pong ≡ c.outgoing_pong
      → c'.sent ≡ c.sent
      → c'.seq_num ≡ c.seq_num
      → Numbered print cap c
      → Numbered print cap c'
  same_numbers c c' same_ping same_pong same_sent same_seq v = record {
    ping_room = ap (λ (h : Header). h.capacity) same_ping ∙ v.ping_room;
    pong_room = ap (λ (h : Header). h.capacity) same_pong ∙ v.pong_room;
    sent_texts = ap (map shown) same_sent ∙ v.sent_texts ∙ ap (texts print cap) (sym same_seq);
  }

  ready-Sends :
      Readable e
      → (c : Component) → c.seq_num + 1 < 2 ^ 31
      → Sends 1 c (transport_init e lib c >>= λ c'. send_ping e lib print c')
  ready-Sends r c h =
      let first = send_ping-Sends (initialised e lib print ok c) h in
      record {
        after = first.after;
        returns =
            ap (λ o. o >>= λ c'. send_ping e lib print c')
              (transport_init-initialised e lib print ok r c)
            ∙ first.returns;
        count = first.count;
        numbers = λ v.
            first.numbers
              (record { ping_room = refl; pong_room = refl; sent_texts = v.sent_texts });
      }

  spun : Component → Component
  spun c = record (polled c) { log = (spin_some 0, lib c.log (spin_some 0)) ∷ c.log }

  pingpong-Sends :
      (incoming : List Incoming) (c : Component)
      → c.seq_num + (if (spsc_empty c.transport.vmm2pp.queue).0 then 0 else length incoming)
        < 2 ^ 31
      → Sends (if (spsc_empty c.transport.vmm2pp.queue).0 then 0 else length incoming) c (
          if (spsc_empty c.transport.vmm2pp.queue).0
          then done (polled c)
          else answer e lib print incoming (spun c))
  unfolding polled spun
  pingpong-Sends incoming c h = elim (Bool-cases (spsc_empty c.transport.vmm2pp.queue).0) [
    | inl empty ↦ rw empty (record {
      after = polled c;
      returns = refl;
      count = omega arith;
      numbers = same_numbers c (polled c) refl refl refl refl;
    })
    | inr more ↦
        let rest = answer-Sends incoming (spun c) (ground arith) in
        rw more (record {
          after = rest.after;
          returns = rest.returns;
          count = rest.count;
          numbers = λ v. rest.numbers (same_numbers c (spun c) refl refl refl refl v);
        })
  ]

  pub notified-Sends :
      Readable e
      → (incoming : List Incoming) (ch : ℕ) (c : Component)
      → c.seq_num + answers incoming ch c < 2 ^ 31
      → Sends (answers incoming ch c) c (notified e lib print incoming ch c)
  unfolding notified polled spun
  notified-Sends r incoming ch c h = elim (Bool-cases (ch == chan_ready)) [
    | inl ready ↦ rw ready (ready-Sends r c (ground arith))
    | inr other ↦ elim (Bool-cases (ch == chan_pingpong)) [
      | inl pingpong ↦ rw (other, pingpong) (pingpong-Sends incoming c (ground arith))
      | inr unknown ↦
          rw (other, unknown)
            (record { after = c; returns = refl; count = omega arith; numbers = λ v. v })
    ]
  ]
