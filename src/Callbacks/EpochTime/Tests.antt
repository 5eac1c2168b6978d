-- ===== src/Callbacks/EpochTime/Tests.antt =====
-- The time of day in milliseconds does not fit.
use micro_ros_demos.Prelude.{◌≡◌, ◌↔◌, refl, true, false, [], ◌∷◌}
use micro_ros_demos.Prelude.Int.{pos, negsuc}
use micro_ros_demos.Callbacks.EpochTime.{Round, fresh, rounds, timer_callback}
use micro_ros_demos.Callbacks.EpochTime.Rounds.{
  sent_times, AllFit, printed_times, failures, rounds_lem,
}

-- 2023-11-14 22:13:20 UTC
abbrev now : Round
now = record { synced = true; time = pos 1700000000000; ok = true }

abbrev early : Round
early = record { synced = false; time = pos 86400000; ok = true }

rounds_lem_example :
    (printed_times (rounds (early ∷ now ∷ []) fresh).lines ≡ early.time ∷ now.time ∷ [])
    × (failures (rounds (early ∷ now ∷ []) fresh).lines ≡ 1)
    × (((rounds (early ∷ now ∷ []) fresh).published ≡ sent_times (early ∷ now ∷ []))
        ↔ AllFit (sent_times (early ∷ now ∷ [])))
rounds_lem_example = rounds_lem (early ∷ now ∷ [])

now_published : (rounds (now ∷ []) fresh).published ≡ negsuc 807049215 ∷ []
unfolding rounds timer_callback
now_published = refl
