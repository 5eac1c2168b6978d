-- ===== src/Callbacks/ComplexMessages/Tests.antt =====
-- Two rounds, with numbers themselves in place of the floating-point ones.
use micro_ros_demos.Prelude.{
  ℕ, ◌+◌, ◌≡◌, refl, true, false, List, [], ◌∷◌, ◌++◌, some, length, replicate, arith,
}
use micro_ros_demos.Prelude.Int.{pos}
use micro_ros_demos.Callbacks.ComplexMessages.{Text, Msg, Publisher, publish_rounds}
use micro_ros_demos.Callbacks.ComplexMessages.Printed.{Roomy, all_lines, heard, publish_rounds_lem}

abbrev array : Text
array = record { buffer = replicate 30 1; size = 0 }

abbrev blank : Msg ℕ
blank = record {
  data1 = 0;
  data2 = 0;
  data3 = pos 0;
  data4 = 0;
  data5 = 0;
  data6 = pos 0;
  data7 = 0;
  data8 = pos 0;
  data9 = 0;
  data10 = pos 0;
  data11 = 0;
  data12 = pos 0;
  data13 = 0;
  string1 = array;
  string2 = array;
  string3 = array;
  string4 = array;
}

abbrev at_200 : Publisher ℕ
at_200 = record { num = 200; msg = blank; wire = []; lines = [] }

blank-Roomy : Roomy blank
blank-Roomy = record { room1 = refl; room2 = refl; room3 = refl; room4 = refl }

publish_rounds_lem_example :
    (s' : Publisher ℕ) × (ms : List (Msg ℕ)) × (publish_rounds
        (λ n. n)
        (λ n. n)
        (true ∷ false ∷ [])
        at_200
      ≡ some s')
    × (s'.num ≡ 200 + length (true ∷ false ∷ []))
    × (s'.wire ≡ [] ++ ms)
    × (s'.lines ≡ [] ++ all_lines (λ n. n) (λ n. n) 200 (true ∷ false ∷ []))
    × (heard ms ≡ all_lines (λ n. n) (λ n. n) 200 (true ∷ false ∷ []))
publish_rounds_lem_example =
    publish_rounds_lem (λ n. n) (λ n. n) (true ∷ false ∷ []) at_200 (omega arith) blank-Roomy
