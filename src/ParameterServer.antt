-- ===== src/ParameterServer.antt =====
-- rclc/parameter_server/main.c: the timer and the callback for changed parameters.
mod Rate
mod Tests
use micro_ros_demos.Prelude.{
  ℕ, ◌+◌, ◌*◌, ◌%◌, ◌^◌, ltb, Bool, true, false, List, [], ◌∷◌, ◌++◌, Option, some, none,
  if◌then◌else◌,
}

-- `Parameter`: what `strcmp` says of its name, and the value with its type, an
-- integer as the 64 bits of an int64_t
pub data Name : Type 0 where
  publish_toogle publish_rate_ms other_name : Name

pub data Value : Type 0 where
  bool_value : Bool → Value
  integer_value : ℕ → Value
  other_value : Value

pub record Parameter : Type 0 where
  pub name : Name
  pub value : Value

-- The globals. `sent` logs what is passed to `rcl_publish`, oldest first, and `period` is what the
-- last call of `rcl_timer_exchange_period` that returned RCL_RET_OK has set, in nanoseconds.
pub record Server : Type 0 where
  pub publish : Bool
  pub msg : ℕ
  pub sent : List ℕ
  pub period : ℕ

-- `RCL_MS_TO_NS`, on the 64 bits of an int64_t
abbrev pub ms_to_ns : ℕ → ℕ
ms_to_ns ms = ms * 1000000 % 2 ^ 64

-- `none` is the overflow of `msg.data`, an int32_t.
unfoldable pub timer_callback : Server → Option Server
timer_callback s =
    if s.publish
    then if ltb (s.msg + 1) (2 ^ 31)
      then some (record s { sent = s.sent ++ (s.msg ∷ []); msg = s.msg + 1 })
      else none
    else some s

-- `exchange` says whether `rcl_timer_exchange_period` takes a period.
abbrev pub change : (ℕ → Bool) → Name → Value → Server → Server
change exchange publish_toogle (bool_value b) s = record s { publish = b }
change exchange publish_toogle (integer_value n) s = s
change exchange publish_toogle other_value s = s
change exchange publish_rate_ms (bool_value b) s = s
change exchange publish_rate_ms (integer_value n) s =
    if exchange (ms_to_ns n) then record s { period = ms_to_ns n } else s
change exchange publish_rate_ms other_value s = s
change exchange other_name v s = s

unfoldable pub on_parameter_changed :
    (ℕ → Bool) → Option Parameter → Option Parameter → Server → Bool × Server
on_parameter_changed exchange none none s = (false, s)
on_parameter_changed exchange (some old) none s = (false, s)
on_parameter_changed exchange old (some new) s = (true, change exchange new.name new.value s)
