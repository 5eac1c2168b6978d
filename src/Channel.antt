-- ===== src/Channel.antt =====
-- A shared memory region of rclc/ping_pong_sel4: the queue at its start and the blocks behind it,
-- and what a call that may wait or stop gives.
pub mod Contents
pub mod Produce
pub mod Region
use micro_ros_demos.Prelude.{ℕ, ◌==◌, if◌then◌else◌}
use micro_ros_demos.Memory.{Mem}
use micro_ros_demos.Spsc.{SpscQueue}

-- `block p` is what the block at the address `p` holds.
pub record Channel : Type 0 where
  pub queue : SpscQueue
  pub block : ℕ → Mem

-- A call returns, is still waiting for the other side when the loads that it was given run out,
-- stops at a failed `assert` or `exit(1)`, or does what C leaves undefined: it writes beyond its
-- block, uses a variable that is not set or counts beyond an int.
pub data Outcome {ℓ} (A : Type ℓ) : Type ℓ where
  done : A → Outcome A
  waits : Outcome A
  aborts : Outcome A
  overruns : Outcome A

infixl 5 ◌>>=◌
abbrev pub ◌>>=◌ {ℓ κ} : {A : Type ℓ} {B : Type κ} → Outcome A → (A → Outcome B) → Outcome B
done a >>= f = f a
waits >>= f = waits
aborts >>= f = aborts
overruns >>= f = overruns

abbrev pub put_block : Channel → ℕ → Mem → Channel
put_block c p m = record c { block = λ a. if a == p then m else c.block a }
