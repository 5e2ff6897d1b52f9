-- ===== src/Tests/Matchings.antt =====
-- A graph where the second node takes the place of the first, which moves.
use mosito.Base.{ℕ, ◌≡◌, refl, Bool, false, List, [], ◌∷◌, replicate}
use mosito.Matching.{find_from, find_fuel, find, match_from, largest_matching}

abbrev no_edges : ℕ → ℕ → Bool
no_edges a b = false

abbrev pairs : List (ℕ × ℕ)
pairs = (1, 1) ∷ (1, 2) ∷ (2, 1) ∷ []

moved : largest_matching no_edges 3 pairs (replicate 4 0) ≡ (0, 2, 0 ∷ 2 ∷ 1 ∷ 0 ∷ [])
unfolding largest_matching match_from find find_fuel find_from
moved = refl
