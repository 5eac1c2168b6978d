-- ===== src/UdpTransport.antt =====
-- rclc/configuration_example/custom_transports/main.c: the custom transport over a UDP socket. What
-- the system calls give is a parameter; the calls of main are in Programs/Topics.antt.
mod Sessions
mod Tests
use micro_ros_demos.Prelude.{
  ℕ, Bool, true, false, List, [], ◌∷◌, ◌++◌, Option, some, none, if◌then◌else◌, length,
}

-- What `freeaddrinfo` is given.
pub data Freed : Type 0 where
  allocated uninitialised : Freed

-- `poll_fd`, with `none` for -1, the address that its socket is connected to, and the calls of
-- `freeaddrinfo`.
pub record Transport : Type 0 where
  pub fd : Option ℕ
  pub pollin : Bool
  pub peer : Option ℕ
  pub freed : List Freed

-- What `socket`, `getaddrinfo` and `connect` give, with `none` for a failure. Addresses are numbered.
pub record Network : Type 0 where
  pub new_socket : Option ℕ
  pub addresses : Option (List ℕ)
  pub connects : ℕ → Bool

-- The loop over the addresses, which stops at the first that `connect` takes.
unfoldable pub connect_first : (ℕ → Bool) → List ℕ → Transport → Transport
connect_first connects [] t = t
connect_first connects (a ∷ addresses) t =
    let rest = connect_first connects addresses t in
    if connects a then record t { pollin = true; peer = some a } else rest

abbrev pub free_addresses : Freed → Transport → Transport
free_addresses f t = record t { freed = t.freed ++ (f ∷ []) }

-- What it returns is the address of `rcutils_vsnprintf` as a bool.
unfoldable pub custom_transport_open : Network → Transport → Bool × Transport
custom_transport_open n t = elim n.new_socket [
  | none ↦ (true, record t { fd = none })
  | some fd ↦ elim n.addresses [
    | none ↦ (true, free_addresses uninitialised (record t { fd = some fd }))
    | some addresses ↦
        let tried = connect_first n.connects addresses (record t { fd = some fd }) in
        (true, free_addresses allocated tried)
  ]
]

-- The argument is whether `close` gives 0.
unfoldable pub custom_transport_close : Bool → Transport → Bool
custom_transport_close closes t = elim t.fd [ none ↦ true | some fd ↦ closes ]

-- What `send` gives, then what is returned and `*errcode`.
unfoldable pub custom_transport_write : Option ℕ → ℕ × ℕ
custom_transport_write (some bytes_sent) = (bytes_sent, 0)
custom_transport_write none = (0, 1)

-- What `poll` gives.
pub data Poll : Type 0 where
  failed timed_out ready : Poll

-- `received` is what `recv` gives. Returns the count, the bytes that are then in `buf`, and
-- `*errcode`.
unfoldable pub custom_transport_read : Poll → Option (List ℕ) → ℕ × List ℕ × ℕ
custom_transport_read ready (some bytes) = (length bytes, bytes, 0)
custom_transport_read ready none = (0, [], 1)
custom_transport_read timed_out received = (0, [], 0)
custom_transport_read failed received = (0, [], 1)
