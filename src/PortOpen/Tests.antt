-- ===== src/PortOpen/Tests.antt =====
-- The program on small tables.
use micro_ros_demos.Prelude.{◌+◌, ◌≡◌, refl, true, List, [], ◌∷◌, none, some, length, arith}
use micro_ros_demos.PortOpen.{Text, port_str, wait_for_port, main, still_waiting, awaited}
use micro_ros_demos.PortOpen.Address.{unreadable, socket}
use micro_ros_demos.PortOpen.Signal.{Table, no_file, rows, files, idle, signalled, signal_lem}

-- 12345 is 3039.
port_str_12345 : port_str 12345 ≡ b':' ∷ b'3' ∷ b'0' ∷ b'3' ∷ b'9' ∷ []
unfolding port_str
port_str_12345 = refl

abbrev localhost : Text
localhost = b'0' ∷ b'1' ∷ b'0' ∷ b'0' ∷ b'0' ∷ b'0' ∷ b'7' ∷ b'F' ∷ []

abbrev early : List Table
early = no_file ∷ rows none (unreadable ∷ socket localhost 53 ∷ []) ∷ []

abbrev late : Table
late = rows none (socket localhost 53 ∷ socket localhost 12345 ∷ [])

signal_lem_example :
    (main none (files early) true true idle ≡ (still_waiting, idle))
    × (wait_for_port
          (awaited none)
          (files (no_file ∷ rows none (unreadable ∷ socket localhost 53 ∷ []) ∷ late ∷ []))
        ≡ some (length early + 1))
    × (main none
          (files (no_file ∷ rows none (unreadable ∷ socket localhost 53 ∷ []) ∷ late ∷ []))
          true
          true
          idle
        ≡ signalled true true)
signal_lem_example =
    signal_lem none early late [] true true (omega arith) (omega arith) (omega arith)
      (refl, (refl, tt)) refl
