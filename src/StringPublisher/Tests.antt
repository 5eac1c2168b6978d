-- ===== src/StringPublisher/Tests.antt =====
-- Three texts, the last two with a number of two digits.
use micro_ros_demos.Prelude.{
  ℕ, ◌+◌, ◌^◌, ◌<◌, ◌≡◌, refl, [], ◌∷◌, ◌++◌, some, arith, drop, replicate, length-replicate,
}
use micro_ros_demos.StringPublisher.{Publisher, decimal, text, ticks}
use micro_ros_demos.StringPublisher.Texts.{value, texts, ticks_lem}

digits_of_120 : decimal 10 120 ≡ b'1' ∷ b'2' ∷ b'0' ∷ []
unfolding decimal
digits_of_120 = refl

abbrev at_nine : Publisher
at_nine = record { buffer = replicate 200 7; size = 0; counter = 9; published = [] }

ticks_lem_example :
    (s' : Publisher) × (ticks 3 at_nine ≡ some s')
    × (s'.counter ≡ 9 + 3)
    × (s'.published ≡ [] ++ texts 9 3)
    × ((k : ℕ) → k < 2 ^ 31 → value 0 (drop 22 (text k)) ≡ k)
ticks_lem_example = ticks_lem 3 at_nine (length-replicate {A = ℕ} 200 7) (omega arith)
