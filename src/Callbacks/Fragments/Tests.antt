-- ===== src/Callbacks/Fragments/Tests.antt =====
-- Short texts, and the text of the program over zeroed memory.
use micro_ros_demos.Prelude.{
  ℕ, ◌≤◌, ◌≡◌, refl, true, false, List, [], ◌∷◌, some, none, leb, length, replicate,
  length-replicate,
}
use micro_ros_demos.Callbacks.Fragments.{
  Text, fill, strncmp, subscription_callback, array_len, text_len, timer_callback, Publisher,
}
use micro_ros_demos.Callbacks.Fragments.Delivery.{all_z, fragments_lem}

abbrev zeroed : List ℕ
zeroed = replicate array_len 0

fragments_lem_example :
    ((msg : Text)
      → msg.size ≤ array_len
      → msg.size ≤ length msg.bytes
      → subscription_callback array_len msg ≡ some (msg.size, all_z msg.size msg.bytes))
    × ((k : ℕ)
        → k ≤ (fill text_len zeroed).size
        → subscription_callback array_len (record (fill text_len zeroed) { size = k })
          ≡ some (k, leb k text_len))
fragments_lem_example = fragments_lem zeroed (length-replicate {A = ℕ} array_len 0)

two_of_three :
    subscription_callback 3 (record { bytes = b'z' ∷ b'z' ∷ 0 ∷ []; size = 2 }) ≡ some (2, true)
unfolding subscription_callback strncmp
two_of_three = refl

with_the_nul :
    subscription_callback 3 (record { bytes = b'z' ∷ b'z' ∷ 0 ∷ []; size = 3 }) ≡ some (3, false)
unfolding subscription_callback strncmp
with_the_nul = refl

beyond_the_test :
    subscription_callback 2 (record { bytes = b'z' ∷ b'z' ∷ b'z' ∷ []; size = 3 }) ≡ none
unfolding subscription_callback strncmp
beyond_the_test = refl

abbrev sender : Publisher
sender = record { msg = record { bytes = b'z' ∷ 0 ∷ []; size = 2 }; wire = []; lines = [] }

failed_publish : (timer_callback true false sender).lines ≡ none ∷ some 2 ∷ []
unfolding timer_callback
failed_publish = refl
