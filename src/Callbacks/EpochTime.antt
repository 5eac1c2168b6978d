-- ===== src/Callbacks/EpochTime.antt =====
-- rclc/epoch_synchronization/main.c: the timer, which publishes the time of the agent in an int32.
pub mod Rounds
mod Tests
use micro_ros_demos.Prelude.{ℕ, ◌^◌, Bool, List, [], ◌∷◌, ◌++◌, if◌then◌else◌}
use micro_ros_demos.Prelude.Int.{ℤ, wrap}

-- What is printed: the message of RCSOFTCHECK, and the time in milliseconds.
pub data Line : Type 0 where
  failed_status : Line
  unix_time : ℤ → Line

pub record Publisher : Type 0 where
  pub published : List ℤ
  pub lines : List Line

abbrev pub fresh : Publisher
fresh = record { published = []; lines = [] }

-- What a call meets: whether the session is synchronised, the time that the library then gives, and
-- whether the message is published.
pub record Round : Type 0 where
  pub synced : Bool
  pub time : ℤ
  pub ok : Bool

unfoldable pub timer_callback : Round → Publisher → Publisher
timer_callback r s = record {
  published = s.published ++ (if r.ok then wrap (2 ^ 31) r.time ∷ [] else []);
  lines =
      s.lines
      ++ ((if r.synced then [] else failed_status ∷ [])
          ++ ((if r.ok then [] else failed_status ∷ []) ++ (unix_time r.time ∷ [])));
}

unfoldable pub rounds : List Round → Publisher → Publisher
rounds [] s = s
rounds (r ∷ rs) s = rounds rs (timer_callback r s)
