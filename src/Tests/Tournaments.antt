-- ===== src/Tests/Tournaments.antt =====
-- A tournament of five numbers, where the least one wins.
use mosito.Base.{
  ℕ, ◌≤◌, ◌≡◌, refl, Bool, true, List, [], ◌∷◌, get_or, set, leb, arith, if◌then◌else◌, ◌==◌,
}
use mosito.Heap.Sift.{IsOrder}
use mosito.LoserTree.{
  LoserTree, initialize, winner, load, win_tuple, replay, play_low, play_high, play, play_from, win,
  lose, double_from,
}
use mosito.LoserTree.Won.{IsTournament, winner_least}
use mosito.LoserTree.Initialize.{initialize-IsTournament}
use mosito.LoserTree.Replay.{replay-IsTournament}

leb-IsOrder : IsOrder leb
leb-IsOrder = record { total = λ x y h. ground arith; trans = λ x y z h k. ground arith }

abbrev tuples : List ℕ
tuples = 0 ∷ 30 ∷ 20 ∷ 50 ∷ 10 ∷ 40 ∷ []

abbrev losers : List ℕ
losers = 9 ∷ 9 ∷ 9 ∷ 9 ∷ 9 ∷ []

five : LoserTree ℕ
five = initialize leb 0 tuples 5 losers

abbrev max_null : ℕ → Bool
max_null x = x == 99

five_losers : (initialize leb 0 tuples 5 losers).b ≡ 4 ∷ 2 ∷ 3 ∷ 5 ∷ 1 ∷ []
unfolding initialize play_low play_high play play_from win lose double_from
five_losers = refl

initialize-IsTournament_example :
    IsTournament leb 0 (initialize leb 0 tuples 5 losers)
    × ((initialize leb 0 tuples 5 losers).l ≡ tuples)
    × ((initialize leb 0 tuples 5 losers).n ≡ 5)
initialize-IsTournament_example =
    initialize-IsTournament leb 0 tuples 5 losers leb-IsOrder (omega arith) refl refl

five-IsTournament : IsTournament leb 0 five
unfolding five
five-IsTournament = initialize-IsTournament_example.0

five_players : 3 ≤ five.n
unfolding five initialize
five_players = omega arith

replay-IsTournament_example :
    (t : LoserTree ℕ) × (replay leb 0 max_null
        (winner leb 0 five)
        (load leb 0 (winner leb 0 five) 45 five)
      ≡ ((if max_null (win_tuple leb 0 t) then 1 else 0), t))
    × IsTournament leb 0 t
    × (t.n ≡ five.n)
    × (t.l ≡ set five.l (winner leb 0 five) 45)
replay-IsTournament_example =
    replay-IsTournament leb 0 max_null five 45 leb-IsOrder five-IsTournament

winner_least_example : leb (win_tuple leb 0 five) (get_or five.l 3 0) ≡ true
winner_least_example =
    winner_least leb 0 five 3 leb-IsOrder five-IsTournament (omega arith) five_players
