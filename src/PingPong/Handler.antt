-- ===== src/PingPong/Handler.antt =====
-- The entry point `notified` of ping_pong_component.c, with the set-up of the transport and the
-- messages that it sends. The calls of the transport's own functions that the client library makes
-- meanwhile are left out here.
use Prim.Native.String.{String}
use micro_ros_demos.Prelude.{
  ℕ, ◌+◌, ◌-◌, ◌^◌, ltb, true, false, List, [], ◌∷◌, ◌++◌, ◌==◌, if◌then◌else◌, length, take,
}
use micro_ros_demos.Spsc.{spsc_empty}
use micro_ros_demos.Channel.{Outcome, done, aborts, overruns, ◌>>=◌}
use micro_ros_demos.Channel.Region.{init_region}
use micro_ros_demos.Net.{Mac, Udphdr, make_ethhdr, make_iphdr, make_udphdr}
use micro_ros_demos.Rclc.{Call, act, publisher, nth, Log, Library, exec}
use micro_ros_demos.Rclc.Calls.{spin_some}
use micro_ros_demos.Programs.Nodes.{set_custom_transport, transport_calls}
use micro_ros_demos.PingPong.{Transport, chan_pingpong, chan_ready, assert_some}

-- `std_msgs__msg__Header` without the stamp, which is always 0. `frame_id` is what `data` holds up
-- to its NUL.
pub record Header : Type 0 where
  pub size : ℕ
  pub capacity : ℕ
  pub frame_id : List ℕ

-- The ping publisher is number 0 and the pong publisher number 1.
pub record Sent : Type 0 where
  pub by : ℕ
  pub header : Header

-- The globals. `sent` logs what was published, and `log` the calls of the client library.
pub record Component : Type 0 where
  pub transport : Transport
  pub outgoing_ping : Header
  pub outgoing_pong : Header
  pub seq_num : ℕ
  pub sent : List Sent
  pub log : Log

-- Where the regions start, what `sscanf` and `inet_addr` make of the addresses, what the header
-- functions find on the stack, and what `std_msgs__msg__Header__init` makes.
pub record Setting : Type 0 where
  pub pp2vmm_at : ℕ
  pub vmm2pp_at : ℕ
  pub src_mac : ℕ × Mac
  pub dst_mac : ℕ × Mac
  pub src_ip : ℕ
  pub dst_ip : ℕ
  pub stack : Udphdr
  pub new_header : Header

-- A message on one of the two topics, with `send_pong` and `send_ping` as its callback.
pub data Incoming : Type 0 where
  ping pong : Incoming

-- The text of "%d_%d" for a number and DEVICE_ID is the first argument, of which `snprintf` stores
-- what fits and returns the length.
abbrev pub numbered : (ℕ → List ℕ) → ℕ → Header → Header
numbered print n hdr = record hdr {
  size = length (print n);
  frame_id = take (hdr.capacity - 1) (print n);
}

abbrev pub publish : String → ℕ → Call
publish topic i = act "rcl_publish" topic (nth publisher i ∷ [])

module _ (e : Setting) where
  -- The results of `spsc_init` are dropped.
  unfoldable pub set_up_queues : Transport → Outcome Transport
  set_up_queues t = do
    eth ← assert_some (make_ethhdr e.src_mac e.dst_mac)
    done (record t {
      pp2vmm = (init_region e.pp2vmm_at t.pp2vmm).1;
      vmm2pp = (init_region e.vmm2pp_at t.vmm2pp).1;
      tx_eth_hdr = eth;
      tx_ip_hdr = make_iphdr e.src_ip e.dst_ip;
      tx_udp_hdr = make_udphdr e.stack 54321 8888;
    })

  module _ (lib : Library) where
    -- A failure to set the transport returns, any other one exits.
    unfoldable pub set_up_client : Log → Outcome Log
    set_up_client log =
        if lib log set_custom_transport
        then (let (ok, after) = exec lib transport_calls ((set_custom_transport, true) ∷ log) in
            if ok then done after else aborts)
        else done ((set_custom_transport, false) ∷ log)

    unfoldable pub transport_init : Component → Outcome Component
    transport_init c = do
      transport ← set_up_queues c.transport
      log ← set_up_client c.log
      done (record c {
        transport = transport;
        outgoing_ping = e.new_header;
        outgoing_pong = e.new_header;
        log = log;
      })

    -- `seq_num` is an int. Counting beyond 2^31 - 1 is undefined.
    module _ (print : ℕ → List ℕ) where
      unfoldable pub send_impl : Header → String → ℕ → Component → Outcome (Header × Component)
      send_impl hdr topic i c =
          let filled = numbered print c.seq_num hdr in
          if lib c.log (publish topic i)
          then if ltb (c.seq_num + 1) (2 ^ 31)
            then done (
              filled,
              record c {
                seq_num = c.seq_num + 1;
                sent = c.sent ++ (record { by = i; header = filled } ∷ []);
                log = (publish topic i, true) ∷ c.log;
              },
            )
            else overruns
          else aborts

      unfoldable pub send_ping : Component → Outcome Component
      send_ping c = do
        (hdr, c') ← send_impl c.outgoing_ping "/microROS/ping" 0 c
        done (record c' { outgoing_ping = hdr })

      unfoldable pub send_pong : Component → Outcome Component
      send_pong c = do
        (hdr, c') ← send_impl c.outgoing_pong "/microROS/pong" 1 c
        done (record c' { outgoing_pong = hdr })

      -- The callbacks that one call of `rclc_executor_spin_some` makes.
      unfoldable pub answer : List Incoming → Component → Outcome Component
      answer [] c = done c
      answer (ping ∷ ms) c = send_pong c >>= λ c'. answer ms c'
      answer (pong ∷ ms) c = send_ping c >>= λ c'. answer ms c'

      -- `incoming` is what the executor finds.
      unfoldable pub notified : List Incoming → ℕ → Component → Outcome Component
      notified incoming ch c =
          if ch == chan_ready
          then transport_init c >>= (λ c'. send_ping c')
          else if ch == chan_pingpong
          then (let (empty, q) = spsc_empty c.transport.vmm2pp.queue in
              let polled = record c {
                transport = record c.transport { vmm2pp = record c.transport.vmm2pp { queue = q } };
              } in
              if empty
              then done polled
              else answer incoming
                  (record polled { log = (spin_some 0, lib c.log (spin_some 0)) ∷ c.log }))
          else done c
