-- ===== src/Tests/Partitions.antt =====
-- Tuples with the keys 3 and 12, and the bounds 10 and 20.
use mosito.Base.{ℕ, ◌≡◌, refl, some, List, [], ◌∷◌, arith}
use mosito.Sort.{distribute}
use mosito.Sort.Ranges.{Distributed, distribute-Distributed}
use mosito.Base.Bytes.{get_u64}

abbrev key_of_3 : List ℕ
key_of_3 = 0 ∷ 0 ∷ 0 ∷ 0 ∷ 0 ∷ 0 ∷ 0 ∷ 0 ∷ 3 ∷ []

abbrev key_of_12 : List ℕ
key_of_12 = 0 ∷ 0 ∷ 0 ∷ 0 ∷ 0 ∷ 0 ∷ 0 ∷ 0 ∷ 12 ∷ []

abbrev bounds : List ℕ
bounds = 10 ∷ 20 ∷ []

distribute-Distributed_example :
    (rs : List (List (List ℕ))) × (distribute bounds ([] ∷ [] ∷ []) (key_of_12 ∷ key_of_3 ∷ [])
      ≡ some rs)
    × Distributed bounds ([] ∷ [] ∷ []) rs (key_of_12 ∷ key_of_3 ∷ [])
unfolding get_u64
distribute-Distributed_example =
    distribute-Distributed bounds ([] ∷ [] ∷ []) (key_of_12 ∷ key_of_3 ∷ []) refl
      ((1, omega arith, omega arith), ((0, omega arith, omega arith), tt))

two_ranges :
    distribute bounds ([] ∷ [] ∷ []) (key_of_12 ∷ key_of_3 ∷ [])
    ≡ some ((key_of_3 ∷ []) ∷ (key_of_12 ∷ []) ∷ [])
unfolding distribute get_u64
two_ranges = refl
