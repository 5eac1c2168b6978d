-- ===== src/Callbacks/GraphCounts/Tests.antt =====
-- Two publishers by the handle, and a query by the topic that fails.
use micro_ros_demos.Prelude.{ℕ, ◌≡◌, refl, true, false, [], ◌∷◌, some, none}
use micro_ros_demos.Callbacks.GraphCounts.{
  failed_status, by_handle, by_topic, count_callback, publisher_count_callback,
  subscription_count_callback, static_timer_callback,
}
use micro_ros_demos.Callbacks.GraphCounts.Stale.{shown_by_topic, count_callback_lem}

second_fails :
    publisher_count_callback (some 2) none ≡ by_handle 2 ∷ failed_status ∷ by_topic 2 ∷ []
unfolding publisher_count_callback
second_fails = refl

both_answer : subscription_count_callback (some 2) (some 3) ≡ by_handle 2 ∷ by_topic 3 ∷ []
unfolding subscription_count_callback
both_answer = refl

stale : shown_by_topic (count_callback (some 2) none) ≡ some 2
stale = count_callback_lem (some 2) none

one_published : static_timer_callback {M = ℕ} true 7 8 false true ≡ 8 ∷ []
unfolding static_timer_callback
one_published = refl
