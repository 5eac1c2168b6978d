-- ===== src/Startup/Tests.antt =====
-- The start with a port that is open at the second look.
use micro_ros_demos.Prelude.{◌≡◌, refl, true, false, [], ◌∷◌, ◌++◌, none, arith}
use micro_ros_demos.Channel.{done}
use micro_ros_demos.Rclc.{is_safe}
use micro_ros_demos.PortOpen.Address.{socket}
use micro_ros_demos.PortOpen.Signal.{Table, no_file, rows}
use micro_ros_demos.Vmm.{Vmm}
use micro_ros_demos.PingPong.Handler.{Component, numbered}
use micro_ros_demos.PingPong.Ready.{fresh_transport}
use micro_ros_demos.PingPong.HandlerTests.{setting, print_digit, all_succeed, component}
use micro_ros_demos.Startup.{start_up, start_up_lem}

abbrev agent : Table
agent = rows none (socket (b'0' ∷ b'0' ∷ []) 12345 ∷ [])

-- A VMM without a network device.
abbrev vmm : Vmm (Unit {0})
vmm = record {
  pp2vmm = component.transport.pp2vmm;
  vmm2pp = component.transport.vmm2pp;
  net_rx = tt;
  net_tx = tt;
  rx_data = λ a. 0;
  tx_data = λ a. 0;
  handed = [];
  notified = [];
  ready_signal_sent = false;
}

start_up_lem_example :
    (start_up setting all_succeed print_digit none (no_file ∷ []) vmm component ≡ done component)
    × ((c' : Component) × (start_up setting all_succeed print_digit none
            (no_file ∷ agent ∷ [])
            vmm
            component
          ≡ done c')
        × (c'.transport ≡ fresh_transport setting component.transport)
        × (c'.sent
            ≡ [] ++ (record { by = 0; header = numbered print_digit 0 setting.new_header } ∷ []))
        × (is_safe c'.log ≡ true))
start_up_lem_example =
    start_up_lem setting all_succeed print_digit (λ log c. refl) none (no_file ∷ []) agent [] vmm
      component (omega arith) tt (omega arith) (refl, tt) refl refl refl (refl, refl) refl
      (omega arith)
