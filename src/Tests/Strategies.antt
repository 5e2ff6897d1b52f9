-- ===== src/Tests/Strategies.antt =====
-- The arrays of the constructor of ParStrategy, cut into three parts.
use mosito.Base.{ℕ, ◌*◌, ◌+◌, ◌≡◌, refl, List, [], ◌∷◌, arith}
use mosito.Strategy.{sum, create_par_strategy, eval}
use mosito.Strategy.Best.{IsBest, eval-IsBest}

abbrev a_array : List ℕ
a_array = 42 ∷ 42 ∷ 34 ∷ 28 ∷ 16 ∷ 8 ∷ 16 ∷ 10 ∷ 8 ∷ 12 ∷ []

abbrev b_array : List ℕ
b_array = 6 ∷ 12 ∷ 8 ∷ 6 ∷ 12 ∷ 6 ∷ 22 ∷ 16 ∷ 20 ∷ 24 ∷ []

eval-IsBest_example :
    IsBest
      (create_par_strategy 3 a_array b_array)
      (sum a_array * sum a_array + sum b_array * sum b_array)
      3
      10
      (eval (create_par_strategy 3 a_array b_array) 3 10).0
unfolding sum
eval-IsBest_example = eval-IsBest 3 a_array b_array 3 10 (omega arith) (omega arith) (omega arith)

-- The first cut of two parts of the first four ranges.
two_parts : eval (create_par_strategy 3 (3 ∷ 2 ∷ 1 ∷ 3 ∷ []) (2 ∷ 1 ∷ 2 ∷ 3 ∷ [])) 2 4 ≡ (15, 2)
unfolding eval create_par_strategy
two_parts = refl
