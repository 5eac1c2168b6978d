-- ===== src/Vmm/Ready.antt =====
-- The signal of the guest that it is ready.
use micro_ros_demos.Prelude.{
  ◌≡◌, ◌∙◌, Bool, true, false, List, [], ◌∷◌, ◌++◌, ◌||◌, arith, if◌then◌else◌,
}
use micro_ros_demos.PingPong.{chan_ready}
use micro_ros_demos.Vmm.{Vmm, ready_signal_handler}

-- The faults at the guest's ready register, in order. `true` is a write.
abbrev pub handle_signals : {N : Type 0} → List Bool → Vmm N → Vmm N
handle_signals [] v = v
handle_signals (f ∷ fs) v = handle_signals fs (ready_signal_handler f v).1

abbrev pub any_write : List Bool → Bool
any_write [] = false
any_write (f ∷ fs) = f || any_write fs

module _ {N : Type 0} where
  already_sent :
      (fs : List Bool) (v : Vmm N)
      → v.ready_signal_sent ≡ true
      → (handle_signals fs v).notified ≡ v.notified
  unfolding ready_signal_handler
  already_sent [] v s = ground arith
  already_sent (f ∷ fs) v s = ground (arith, already_sent fs (ready_signal_handler f v).1)

  -- However often the guest reads and writes its ready register, a VMM that has not signalled yet
  -- notifies the client on CHAN_READY once if one of the accesses was a write, and else not at all.
  pub ready_signal_handler_lem :
      (fs : List Bool) (v : Vmm N)
      → v.ready_signal_sent ≡ false
      → (handle_signals fs v).notified
        ≡ (if any_write fs then v.notified ++ (chan_ready ∷ []) else v.notified)
  unfolding ready_signal_handler
  ready_signal_handler_lem [] v s = ground arith
  ready_signal_handler_lem (false ∷ fs) v s = ready_signal_handler_lem fs v s
  ready_signal_handler_lem (true ∷ fs) v s =
      already_sent fs (ready_signal_handler true v).1 (ground arith) ∙ ground arith
