-- ===== src/Callbacks/GraphCounts/Stale.antt =====
-- What is printed when a query fails.
use micro_ros_demos.Prelude.{ℕ, ◌≡◌, refl, List, [], ◌∷◌, Option, some, none}
use micro_ros_demos.Callbacks.GraphCounts.{
  Line, failed_status, by_handle, by_topic, stored, count_callback,
}

-- The second number of a call.
abbrev pub shown_by_topic : List Line → Option ℕ
shown_by_topic [] = none
shown_by_topic (by_topic n ∷ ls) = some n
shown_by_topic (failed_status ∷ ls) = shown_by_topic ls
shown_by_topic (by_handle n ∷ ls) = shown_by_topic ls

-- If both queries succeed both answers are printed. If the second fails, then the line for it
-- shows the answer of the first, or zero if that failed too.
pub count_callback_lem :
    (handle topic : Option ℕ)
    → shown_by_topic (count_callback handle topic) ≡ some (stored topic (stored handle 0))
unfolding count_callback
count_callback_lem none none = refl
count_callback_lem none (some n) = refl
count_callback_lem (some m) none = refl
count_callback_lem (some m) (some n) = refl
