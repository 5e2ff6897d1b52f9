-- ===== src/Tests/Merges.antt =====
-- A merge of two columns, of one page and of two.
use mosito.Base.{
  ℕ, ◌<◌, ◌≤◌, ◌≡◌, refl, Bool, true, false, some, List, [], ◌∷◌, ◌++◌, map, take, concat, length,
  get_or, replicate, All, arith, zero, suc,
}
use mosito.Base.Bytes.{get_u64}
use mosito.Heap.Same.{count}
use mosito.Heap.Sift.{IsOrder}
use mosito.LoserTree.{
  initialize, winner, load, win_tuple, replay, replay_from, replay_at, play_low, play_high, play,
  play_from, win, lose, double_from, leaf,
}
use mosito.Page.{room, counted}
use mosito.Runs.Ascending.{IsAscending}
use mosito.SortedBuffer.{
  PcBuffer, compare_temp, gather, get_sorted, filled_block, start, first_blocks, fill_from,
  next_tuple,
}
use mosito.SortedBuffer.Merged.{marked, IsNew, gather-merges}

compare_temp-IsOrder : IsOrder compare_temp
unfolding compare_temp
compare_temp-IsOrder = record {
  total = λ x y h. ground (arith, h);
  trans = λ x y z h k. ground (arith, h, k);
}

abbrev tuple : ℕ → List ℕ
tuple k = 0 ∷ 0 ∷ 0 ∷ 0 ∷ 0 ∷ 0 ∷ 0 ∷ 0 ∷ k ∷ 0 ∷ 0 ∷ 0 ∷ 0 ∷ 0 ∷ 0 ∷ 0 ∷ []

abbrev greatest : List ℕ
greatest = replicate 16 255

abbrev no_bytes : List ℕ → Bool
no_bytes [] = true
no_bytes (x ∷ xs) = false

abbrev streams : List (List (List (List ℕ)))
streams = ((tuple 3 ∷ tuple 7 ∷ []) ∷ []) ∷ ((tuple 5 ∷ []) ∷ (tuple 6 ∷ []) ∷ []) ∷ []

abbrev fresh : PcBuffer (List ℕ)
fresh = record {
  row = 2;
  columns = map marked streams;
  itrs = [];
  lt = record { n = 0; low_ext = 0; offset = 0; b = []; l = [] };
  begin = false;
  finished = 0;
}

-- Tuples of 30000 bytes, which are written here without their last bytes: two fit into a page. The
-- page with 6 and 7 is lost.
two_of_four :
    gather compare_temp [] no_bytes greatest 5 30000 (9 ∷ 9 ∷ []) [] fresh
    ≡ some ((tuple 3 ∷ tuple 5 ∷ []) ∷ [])
unfolding gather get_sorted filled_block start first_blocks fill_from next_tuple initialize winner
    load win_tuple replay replay_from replay_at play_low play_high play play_from win lose
    double_from leaf compare_temp get_u64
two_of_four = refl

-- Two of 32768 bytes fit too, but the count lies over the second.
one_of_four :
    gather compare_temp [] no_bytes greatest 5 32768 (9 ∷ 9 ∷ []) [] fresh
    ≡ some ((tuple 3 ∷ []) ∷ [])
unfolding gather get_sorted filled_block start first_blocks fill_from next_tuple initialize winner
    load win_tuple replay replay_from replay_at play_low play_high play play_from win lose
    double_from leaf compare_temp get_u64
one_of_four = refl

fresh-IsNew : IsNew compare_temp [] no_bytes greatest fresh streams
fresh-IsNew = record { begin = refl; row = refl; columns = refl; finished = refl }

both-IsAscending : (i : ℕ) → IsAscending compare_temp (get_or (map concat streams) i [])
unfolding compare_temp get_u64
both-IsAscending zero = ((refl, tt), (tt, tt))
both-IsAscending (suc zero) = ((refl, tt), (tt, tt))
both-IsAscending (suc (suc i)) = tt

less_all : All (λ x. compare_temp greatest x ≡ false) (concat (map concat streams))
unfolding compare_temp get_u64
less_all = (refl, (refl, (refl, (refl, tt))))

gather-merges_example :
    (chunks : List (List (List ℕ))) × (lost : List (List ℕ)) × (gather compare_temp [] no_bytes
        greatest 5 32768
        (9 ∷ 9 ∷ [])
        []
        fresh
      ≡ some (map (take (counted 32768)) chunks))
    × All (λ chunk. length chunk ≡ room 32768) chunks
    × (0 < length lost)
    × (length lost ≤ room 32768)
    × IsAscending compare_temp (concat chunks ++ lost)
    × ((p : List ℕ → Bool)
        → count p (concat chunks ++ lost) ≡ count p (concat (map concat streams)))
gather-merges_example =
    gather-merges compare_temp [] no_bytes greatest compare_temp-IsOrder 5 32768 (9 ∷ 9 ∷ []) []
      fresh streams refl fresh-IsNew refl (omega arith) (omega arith) both-IsAscending less_all
      (refl, (refl, (refl, (refl, tt)))) (omega arith) (omega arith) (omega arith)
