-- ===== src/PingPong/Ready.antt =====
-- What the component does on the guest's first notification, and the numbers of its messages.
use mathlib.Core.Path.{ap₂}
use micro_ros_demos.Prelude.{
  ℕ, ◌+◌, ◌^◌, ◌<◌, ltb, ◌≡◌, ◌∙◌, refl, ap, Bool, true, false, List, [], ◌∷◌, ◌++◌, some, arith,
  if◌then◌else◌,
}
use micro_ros_demos.Channel.{Channel, done, aborts, ◌>>=◌}
use micro_ros_demos.Channel.Region.{init_region, init_region_lem, fresh_region}
use micro_ros_demos.Net.{Ethhdr, make_ethhdr, parse_mac, htons, eth_p_ip, make_iphdr, make_udphdr}
use micro_ros_demos.Rclc.{
  Call, Stmt, check, soft, Log, Library, exec, is_safe, world_after, allowed, apply,
}
use micro_ros_demos.Programs.Nodes.{set_custom_transport, transport_calls}
use micro_ros_demos.PingPong.{Transport, chan_ready, assert_some}
use micro_ros_demos.PingPong.Handler.{
  Component, Setting, Incoming, numbered, publish, set_up_queues, set_up_client, transport_init,
  send_impl, send_ping, notified,
}

-- The calls of a program, each of which succeeds.
abbrev succeeded : List Stmt → Log → Log
succeeded [] log = log
succeeded (check c ∷ p) log = succeeded p ((c, true) ∷ log)
succeeded (soft c ∷ p) log = succeeded p ((c, true) ∷ log)

abbrev pub AllSucceed : Library → Type 0
AllSucceed lib = (log : Log) (c : Call) → lib log c ≡ true

exec-succeeded :
    (lib : Library)
    → AllSucceed lib
    → (p : List Stmt) (log : Log) → exec lib p log ≡ (true, succeeded p log)
unfolding exec
exec-succeeded lib ok [] log = refl
exec-succeeded lib ok (check c ∷ p) log = rw (ok log c) (exec-succeeded lib ok p ((c, true) ∷ log))
exec-succeeded lib ok (soft c ∷ p) log = rw (ok log c) (exec-succeeded lib ok p ((c, true) ∷ log))

-- The transport behind `transport_init`.
abbrev pub fresh_transport : Setting → Transport → Transport
fresh_transport e t = record t {
  pp2vmm = fresh_region e.pp2vmm_at t.pp2vmm;
  vmm2pp = fresh_region e.vmm2pp_at t.vmm2pp;
  tx_eth_hdr = record { h_dest = e.dst_mac.1; h_source = e.src_mac.1; h_proto = htons eth_p_ip };
  tx_ip_hdr = make_iphdr e.src_ip e.dst_ip;
  tx_udp_hdr = make_udphdr e.stack 54321 8888;
}

abbrev pub Readable : Setting → Type 0
Readable e = (e.src_mac.0 ≡ 6) × (e.dst_mac.0 ≡ 6)

module _ (e : Setting) (lib : Library) (print : ℕ → List ℕ) (ok : AllSucceed lib) where
  ethhdr-made :
      Readable e
      → make_ethhdr e.src_mac e.dst_mac
        ≡ some (record { h_dest = e.dst_mac.1; h_source = e.src_mac.1; h_proto = htons eth_p_ip })
  unfolding make_ethhdr parse_mac
  ethhdr-made r = ground arith

  -- The transport with this header and these regions.
  with_parts : Transport → Ethhdr → Channel → Channel → Transport
  with_parts t eth p v = record t {
    pp2vmm = p;
    vmm2pp = v;
    tx_eth_hdr = eth;
    tx_ip_hdr = make_iphdr e.src_ip e.dst_ip;
    tx_udp_hdr = make_udphdr e.stack 54321 8888;
  }

  set_up_queues-fresh :
      Readable e → (t : Transport) → set_up_queues e t ≡ done (fresh_transport e t)
  unfolding set_up_queues with_parts
  set_up_queues-fresh r t =
      let p : Channel = (init_region e.pp2vmm_at t.pp2vmm).1 in
      let v : Channel = (init_region e.vmm2pp_at t.vmm2pp).1 in
      ap (λ o. assert_some o >>= (λ eth. done (with_parts t eth p v))) (ethhdr-made r)
      ∙ ap₂
          (λ p v. done (
            with_parts t
              (record { h_dest = e.dst_mac.1; h_source = e.src_mac.1; h_proto = htons eth_p_ip }) p
              v))
          (ap (λ (r : Bool × Channel). r.1) (init_region_lem e.pp2vmm_at t.pp2vmm))
          (ap (λ (r : Bool × Channel). r.1) (init_region_lem e.vmm2pp_at t.vmm2pp))

  -- The component behind `transport_init`.
  abbrev pub initialised : Component → Component
  initialised c = record c {
    transport = fresh_transport e c.transport;
    outgoing_ping = e.new_header;
    outgoing_pong = e.new_header;
    log = succeeded transport_calls ((set_custom_transport, true) ∷ c.log);
  }

  set_up_client-succeeds :
      (log : Log)
      → set_up_client e lib log
        ≡ done (succeeded transport_calls ((set_custom_transport, true) ∷ log))
  unfolding set_up_client
  set_up_client-succeeds log =
      let before : Log = (set_custom_transport, true) ∷ log in
      let r : Bool × Log = exec lib transport_calls before in
      ap
        (λ b.
          if b
          then (if r.0 then done r.1 else aborts)
          else done ((set_custom_transport, false) ∷ log))
        (ok log set_custom_transport)
      ∙ ap (λ (r : Bool × Log). if r.0 then done r.1 else aborts)
          (exec-succeeded lib ok transport_calls before)

  pub transport_init-initialised :
      Readable e → (c : Component) → transport_init e lib c ≡ done (initialised c)
  unfolding transport_init
  transport_init-initialised r c =
      rw (set_up_queues-fresh r c.transport, set_up_client-succeeds c.log) refl

  abbrev pub ping_sent : Component → Component
  ping_sent c = record c {
    outgoing_ping = numbered print c.seq_num c.outgoing_ping;
    seq_num = c.seq_num + 1;
    sent = c.sent ++ (record { by = 0; header = numbered print c.seq_num c.outgoing_ping } ∷ []);
    log = (publish "/microROS/ping" 0, true) ∷ c.log;
  }

  pub send_ping-returns :
      (c : Component) → c.seq_num + 1 < 2 ^ 31 → send_ping e lib print c ≡ done (ping_sent c)
  unfolding send_ping send_impl
  send_ping-returns c h =
      let counts : ltb (c.seq_num + 1) (2 ^ 31) ≡ true = ground arith in
      rw (ok c.log (publish "/microROS/ping" 0), counts) refl

  -- The guest is ready, the MAC addresses can be read, no call of the client library fails and the
  -- next number is still an int. Then
  -- both regions get a new, empty queue like the one that `init` of the VMM makes, the packets
  -- pending in them are dropped, and one ping with the next number is published. Each call of the
  -- client library has had what it needs, if none was made before.
  pub ready_lem :
      Readable e
      → (incoming : List Incoming) (c : Component) → c.log ≡ []
      → c.seq_num + 1 < 2 ^ 31
      → (c' : Component) × (notified e lib print incoming chan_ready c ≡ done c')
        × (c'.transport ≡ fresh_transport e c.transport)
        × (c'.sent
            ≡ c.sent ++ (record { by = 0; header = numbered print c.seq_num e.new_header } ∷ []))
        × (c'.seq_num ≡ c.seq_num + 1)
        × (is_safe c'.log ≡ true)
  unfolding notified is_safe world_after allowed apply
  ready_lem r incoming c first counts = (
    ping_sent (initialised c),
    ap (λ o. o >>= λ c'. send_ping e lib print c') (transport_init-initialised r c)
        ∙ send_ping-returns (initialised c) counts,
    refl,
    refl,
    refl,
    rw first refl,
  )
