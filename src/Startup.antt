-- ===== src/Startup.antt =====
-- The start of rclc/ping_pong_sel4 through its three programs: is_port_open.c in the guest, the
-- handler of its signal in vmm.c, and `notified` of ping_pong_component.c.
mod Tests
use micro_ros_demos.Prelude.{
  ℕ, ◌+◌, ◌^◌, ◌<◌, ◌≡◌, ◌∙◌, refl, ap, Bool, true, false, List, [], ◌∷◌, ◌++◌, Option,
}
use micro_ros_demos.Channel.{Outcome, done, ◌>>=◌}
use micro_ros_demos.Rclc.{Library, is_safe}
use micro_ros_demos.PortOpen.{main, awaited}
use micro_ros_demos.PortOpen.Signal.{
  Table, files, AllWellformed, NoneShows, shows, idle, signal_lem,
}
use micro_ros_demos.Vmm.{Vmm}
use micro_ros_demos.Vmm.Ready.{handle_signals, ready_signal_handler_lem}
use micro_ros_demos.PingPong.Handler.{Setting, Component, numbered}
use micro_ros_demos.PingPong.Ready.{AllSucceed, Readable, fresh_transport, ready_lem}
use micro_ros_demos.PingPong.Numbers.{Notification, run}

-- Each write to the register is a fault that the VMM handles.
abbrev pub write_faults : List ℕ → List Bool
write_faults [] = []
write_faults (x ∷ xs) = true ∷ write_faults xs

-- The component's notifications, with no message found at any of them and nothing pushed meanwhile.
abbrev pub notifications : List ℕ → List Notification
notifications [] = []
notifications (ch ∷ chs) =
    record { channel = ch; incoming = []; region = λ c. c } ∷ notifications chs

module _ (e : Setting) (lib : Library) (print : ℕ → List ℕ) where
  -- What the three programs make of these tables: the component handles what the VMM notifies.
  abbrev pub start_up : {N : Type 0} → Option ℕ → List Table → Vmm N → Component → Outcome Component
  start_up argument tables v c =
      run e lib print
        (notifications
          (handle_signals (write_faults (main argument (files tables) true true idle).1.written)
            v).notified)
        c

  -- With a VMM that has notified nobody yet, a component that has not called the client library
  -- and whose next number is still an int, and no failing call in any of the three programs: while
  -- no table of the guest shows the agent's port the component is left as it is. Once one does, it
  -- has new regions, has published the first ping and nothing else, and each call of the client
  -- library has had what it needs.
  pub start_up_lem :
      AllSucceed lib
      → {N : Type 0} (argument : Option ℕ) (before : List Table) (t : Table) (later : List Table)
        (v : Vmm N) (c : Component)
      → awaited argument < 2 ^ 16
      → AllWellformed before
      → AllWellformed (before ++ (t ∷ later))
      → NoneShows (awaited argument) before
      → shows (awaited argument) t ≡ true
      → v.ready_signal_sent ≡ false
      → v.notified ≡ []
      → Readable e
      → c.log ≡ []
      → c.seq_num + 1 < 2 ^ 31
      → (start_up argument before v c ≡ done c)
        × ((c' : Component) × (start_up argument (before ++ (t ∷ later)) v c ≡ done c')
            × (c'.transport ≡ fresh_transport e c.transport)
            × (c'.sent
                ≡ c.sent
                  ++ (record { by = 0; header = numbered print c.seq_num e.new_header } ∷ []))
            × (is_safe c'.log ≡ true))
  start_up_lem ok argument before t later v c small w w' none_yet shown unsent quiet r first
        counts =
      let (waits, counted, signals) =
        signal_lem argument before t later true true small w w' none_yet shown in
      let (c', returns, fresh, sent, seq, safe) = ready_lem e lib print ok r [] c first counts in
      (
        rw (waits, quiet) refl,
        (
          c',
          rw (signals, ready_signal_handler_lem (true ∷ []) v unsent, quiet) (rw returns refl),
          fresh,
          sent,
          safe,
        ),
      )
