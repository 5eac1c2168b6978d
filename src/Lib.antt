-- ===== src/Lib.antt =====
-- Verification library of the micro-ROS demo programs (rclc/).
--
-- The repository holds small C programs that use the micro-ROS client library, and one larger
-- demo, rclc/ping_pong_sel4, in which a micro-ROS client on seL4 exchanges UDP packets with the
-- virtual machine monitor of a Linux guest through two shared memory regions. Each region holds a
-- single producer single consumer queue of blocks, and each block one packet.
--
-- Files:
-- * Spsc, Spsc/: rclc/ping_pong_sel4/util/spsc_queue.h. `SpscQueue` is `spsc_queue_t`, and
--   `spsc_init`, `spsc_push`, `spsc_new_block`, `spsc_empty`, `spsc_pop` and `spsc_front_block` are
--   its functions, on counters that wrap at 2^64. Spsc/Shared has the two sides as a step relation,
--   Spsc/Invariant its invariant, Spsc/Fifo what follows for every reachable state, Spsc/Waiting the
--   loops that wait, Spsc/Init the initial state and the blocks, Spsc/Capacity how many blocks it takes. Spsc/Weak takes the two sides under the
--   memory model of ISO C: stores numbered in histories, the views that they carry, and races.
-- * Channel, Channel/: a region, that is a queue and the contents of its blocks, as the list of
--   pending packets. Channel/Region has the two regions of ping_pong_sel4 as `spsc_init` leaves them.
-- * Net, Net/: rclc/ping_pong_sel4/util/networking.h, on a block of bytes (Memory). Net/Checksum is
--   about `set_ip_chksum`, Net/Packet about `make_pkt` and the functions that read a packet.
-- * PingPong, PingPong/: the custom transport of rclc/ping_pong_sel4/ping_pong_component.c, that is
--   `custom_transport_seL4_write`, `custom_transport_seL4_read` and `is_addressed_to_me`.
--   PingPong/Handler has the entry point `notified` of the same file, with `transport_init` and
--   `send_impl`, PingPong/Ready what the first notification does, PingPong/Numbered the messages
--   of one notification and PingPong/Numbers those of many, between which the regions may change.
-- * Vmm, Vmm/: rclc/ping_pong_sel4/vmm/src/vmm.c. Vmm/Guest and Vmm/Rounds are about `notified` and
--   `send_pkt_to_guest`, Vmm/Client about `process_tx_pending`, Vmm/Ready about
--   `ready_signal_handler`, Vmm/Delivery about a packet all the way from the client's write to
--   the guest, Vmm/Reception about one from the guest to the client's read, Vmm/Boot and Vmm/Booted
--   about `init`. The sDDF queues and the virtio device are
--   parameters.
-- * PortOpen, PortOpen/: rclc/ping_pong_sel4/is_port_open.c, which signals the VMM from the guest.
-- * EchoServer, EchoServer/: rclc/ping_pong_sel4/vm_echo.c.
-- * Startup, Startup/: the start of ping_pong_sel4 through these three programs.
-- * Stubs, Stubs/: `clock_gettime`, `syscall_dispatch` and `__emutls_get_address` of
--   rclc/ping_pong_sel4/stubs/. Stubs/Mask is about the mask that rounds an address up.
-- * PingNode, PingNode/: the callbacks of rclc/ping_pong/main.c.
-- * ParameterServer, ParameterServer/: the callbacks of rclc/parameter_server/main.c.
-- * Rclc, Rclc/: RCCHECK and RCSOFTCHECK, over a library that decides whether each call succeeds.
-- * Programs, Programs/: the calls of the main functions of the programs of rclc/, among them
--   `transport_init` of ping_pong_component.c.
-- * Fibonacci, Fibonacci/: the goal handler and the worker thread of
--   rclc/fibonacci_action_server/main.c. Fibonacci/Numbers has the numbers themselves.
-- * FibonacciClient, FibonacciClient/: the callbacks and the waiting loop of
--   rclc/fibonacci_action_client/main.c, and a goal of the client on the server.
-- * AgentPing, AgentPing/: the modes and the timer of rclc/ping_uros_agent/main.c.
-- * StringPublisher, StringPublisher/: the timer of rclc/string_publisher/main.c.
-- * Callbacks, Callbacks/: the callbacks of the smaller programs of rclc/. Callbacks/Counting is about
--   int32_publisher and its like and int32_multinode, Callbacks/EpochTime about epoch_synchronization,
--   Callbacks/AddTwoInts about addtwoints_server and addtwoints_client, Callbacks/Fragments about
--   fragmented_publication and fragmented_subscription, Callbacks/ComplexMessages about
--   complex_msg_publisher and complex_msg_subscriber, Callbacks/GraphCounts about publisher_count,
--   subscription_count and the timer of static_type_handling.
-- * UdpTransport, UdpTransport/: the transport of
--   rclc/configuration_example/custom_transports/main.c, over what its system calls give.
-- * Multithread, Multithread/: the threads of rclc/multithread_publisher_subscriber/main.c as a step
--   relation, with its invariant, a measure that every step of the shutdown lowers, and the end.
-- * GraphVisualizer, GraphVisualizer/: rclc/graph_introspection/graph_visualizer/main.c.
--   GraphVisualizer/Report has what is to be printed, and GraphVisualizer/Lines,
--   GraphVisualizer/Output and GraphVisualizer/Forever compare the program with it, over a library that
--   answers. GraphVisualizer/Owning and GraphVisualizer/Leaks are about what is freed over any library.
-- * Prelude, Arithmetic, Memory: shared names, lemmas on powers and wrap-around, bytes in memory.
--
-- Bounds and fuel: `decimal` has fuel for ten digits, which any int needs at most. `fold_carries` has
-- three rounds of fuel, which any uint32_t needs at most. `ctz` looks at the 64 bits of its argument. The waiting loops of the queue, the loop of
-- `custom_transport_seL4_read` and the loop that sends a result take the list of what their loads
-- or calls return, and end with that list. A call that does what C leaves undefined, by a write out
-- of range, a descriptor that is not set or an int beyond its range, ends with `overruns`. The VMM's loop over pending packets takes fuel, and the
-- endless loops of the programs a number of rounds. The loops of is_port_open.c and of the action
-- client take the list of what their rounds find. Sizes are `size_t` of 64 bits.
--
-- Not modelled: the client library, the seL4 and sDDF libraries and the C library (what the code
-- uses of them is a parameter), sleeping, floating-point numbers, the callbacks that only print, how
-- static_type_handling fills its images in memory of the library, and heap_init, which is assembly.
-- The VMM and the client take the queue's accesses in one global order, which Spsc/Weak/Order compares
-- with the weak memory model.
pub mod Prelude
pub mod Arithmetic
pub mod Memory
pub mod Spsc
pub mod Channel
pub mod Net
pub mod PingPong
pub mod Vmm
pub mod Stubs
pub mod Rclc
pub mod Programs
pub mod Fibonacci
pub mod FibonacciClient
pub mod PingNode
pub mod ParameterServer
pub mod Multithread
pub mod GraphVisualizer
pub mod PortOpen
pub mod Startup
pub mod EchoServer
pub mod AgentPing
pub mod StringPublisher
pub mod UdpTransport
pub mod Callbacks
