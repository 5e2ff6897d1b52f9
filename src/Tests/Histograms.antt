-- ===== src/Tests/Histograms.antt =====
-- Three blocks and two threads that take turns.
use mosito.Base.{concat, ℕ, ◌<◌, ◌≡◌, refl, List, [], ◌∷◌, All, arith}
use mosito.Base.Bytes.{get_u64}
use mosito.Sort.{key}
use mosito.Shuffle.{Tuple}
use mosito.Histogram.{hist_size, bin, zeros, eval_block, count_up, eval, pthread_e, increase_all}
use mosito.Histogram.Threads.{Interleaved, done, first, second, threads_of, threads-eval}

-- A tuple of two words with a key below 256.
abbrev with_key : ℕ → Tuple
with_key k = 0 ∷ 0 ∷ 0 ∷ 0 ∷ 0 ∷ 0 ∷ 0 ∷ 0 ∷ k ∷ 0 ∷ 0 ∷ 0 ∷ 0 ∷ 0 ∷ 0 ∷ 0 ∷ []

abbrev blocks : List (List Tuple)
blocks = (with_key 5 ∷ with_key 77 ∷ []) ∷ (with_key 6 ∷ []) ∷ []

key-with_key : (k : ℕ) → k < 256 → key (with_key k) < 10000000
unfolding get_u64
key-with_key k l = omega arith

-- 77 falls into bin 2.
two_in_order : eval_block (0 ∷ 0 ∷ 0 ∷ 0 ∷ []) (with_key 5 ∷ with_key 77 ∷ []) ≡ 1 ∷ 0 ∷ 1 ∷ 0 ∷ []
unfolding eval_block count_up bin get_u64
two_in_order = refl

turns :
    Interleaved
      (threads_of (0 ∷ 1 ∷ 2 ∷ 3 ∷ []) blocks)
      (with_key 5 ∷ with_key 6 ∷ with_key 77 ∷ [])
unfolding pthread_e
turns = first (second (first done))

threads-eval_example :
    (increase_all zeros (with_key 5 ∷ with_key 6 ∷ with_key 77 ∷ []) ≡ eval zeros blocks)
    × All (λ t. bin t < hist_size) (concat blocks)
threads-eval_example =
    threads-eval blocks (0 ∷ 1 ∷ 2 ∷ 3 ∷ []) (with_key 5 ∷ with_key 6 ∷ with_key 77 ∷ []) refl turns
      (omega arith)
      (
        key-with_key 5 (omega arith),
        (key-with_key 77 (omega arith), (key-with_key 6 (omega arith), tt)),
      )
