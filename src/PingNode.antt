-- ===== src/PingNode.antt =====
-- rclc/ping_pong/main.c: the callbacks of a node that sends pings, answers those of others and
-- counts the answers to its own.
mod Round
mod Tests
use micro_ros_demos.Prelude.{
  ℕ, ◌+◌, Bool, true, false, List, [], ◌∷◌, ◌++◌, ◌==◌, ◌&&◌, if◌then◌else◌, not,
}

-- `std_msgs__msg__Header`, with the text of `frame_id` up to its NUL
pub record Header : Type 0 where
  pub sec : ℕ
  pub nanosec : ℕ
  pub frame_id : List ℕ

-- The globals. The last two log what was passed to `rcl_publish`, oldest first.
pub record PingNode : Type 0 where
  pub outcoming_ping : Header
  pub device_id : ℕ
  pub seq_no : ℕ
  pub pong_count : ℕ
  pub pings : List Header
  pub pongs : List Header

-- `strcmp(a, b) == 0`
abbrev pub same_text : List ℕ → List ℕ → Bool
same_text [] [] = true
same_text [] (y ∷ ys) = false
same_text (x ∷ xs) [] = false
same_text (x ∷ xs) (y ∷ ys) = x == y && same_text xs ys

-- `print` is `sprintf` of "%d_%d", `seq_no` what `rand` gives, and the others are the time.
unfoldable pub ping_timer_callback : (ℕ → ℕ → List ℕ) → Bool → ℕ → ℕ → ℕ → PingNode → PingNode
ping_timer_callback print timer seq_no sec nanosec s =
    let ping : Header = record {
      sec = sec;
      nanosec = nanosec;
      frame_id = print seq_no s.device_id;
    } in
    if timer
    then record s {
      outcoming_ping = ping;
      seq_no = seq_no;
      pong_count = 0;
      pings = s.pings ++ (ping ∷ []);
    }
    else s

unfoldable pub ping_subscription_callback : Header → PingNode → PingNode
ping_subscription_callback msg s =
    if not (same_text s.outcoming_ping.frame_id msg.frame_id)
    then record s { pongs = s.pongs ++ (msg ∷ []) }
    else s

unfoldable pub pong_subscription_callback : Header → PingNode → PingNode
pong_subscription_callback msg s =
    if same_text s.outcoming_ping.frame_id msg.frame_id
    then record s { pong_count = s.pong_count + 1 }
    else s
