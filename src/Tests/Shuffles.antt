-- ===== src/Tests/Shuffles.antt =====
-- A page of two tuples of 16 bytes, with the keys 5 and 20000000.
use mosito.Base.{
  concat, ℕ, ◌<◌, ◌≡◌, refl, none, some, List, [], ◌∷◌, ◌++◌, get_or, arith, inl, inr,
}
use mosito.Base.Bytes.{get_u64}
use mosito.Shuffle.{
  Tuple, Put, ShuffleLower1, column_of, route, route_all, route_pages, partition, end_puts, execute,
  started,
}
use mosito.Page.{room, counted}
use mosito.Sort.{key, compare_start_end, compare_start_end_from}
use mosito.Shuffle.Chunks.{IsChunked}
use mosito.Shuffle.Puts.{pages_from}
use mosito.Shuffle.Routes.{for_range, execute-IsChunked}

abbrev low : Tuple
low = 0 ∷ 0 ∷ 0 ∷ 0 ∷ 0 ∷ 0 ∷ 0 ∷ 0 ∷ 5 ∷ 0 ∷ 0 ∷ 0 ∷ 0 ∷ 0 ∷ 0 ∷ 0 ∷ []

abbrev high : Tuple
high = 0 ∷ 0 ∷ 0 ∷ 0 ∷ 0 ∷ 0 ∷ 0 ∷ 0 ∷ 0 ∷ 45 ∷ 49 ∷ 1 ∷ 0 ∷ 0 ∷ 0 ∷ 0 ∷ []

abbrev child : List (List Tuple)
child = (low ∷ high ∷ []) ∷ []

key-low : key low < 50000000
unfolding get_u64
key-low = omega arith

key-high : key high < 50000000
unfolding get_u64
key-high = omega arith

-- The two tuples stay in the buffers, and two empty pages are put.
unsent :
    execute 16 4 2 started child
    ≡ some
        (record { buffers = (low ∷ []) ∷ (high ∷ []) ∷ [] ∷ [] ∷ []; puts = end_puts 16 4 2 0 2 })
unfolding execute route_pages route_all route partition compare_start_end compare_start_end_from
    get_u64
unsent = refl

-- With 3 nodes the last range has no column; with 5 the division is by zero.
no_column : (column_of 3 3 ≡ none) × (column_of 5 0 ≡ none)
unfolding column_of
no_column = (refl, refl)

execute-IsChunked_example :
    (s : ShuffleLower1) × (routed : List Put) × (execute 16 4 2 started child ≡ some s)
    × (s.puts ≡ routed ++ end_puts 16 4 2 0 2)
    × ((i : ℕ)
        → IsChunked
            (room 16)
            (counted 16)
            (for_range 16 4 2 i (concat child))
            (pages_from 2 i s.puts)
            (get_or s.buffers i []))
execute-IsChunked_example =
    execute-IsChunked 16 4 2 child (omega arith) (omega arith) (inr (inl refl))
      ((key-low, (key-high, tt)), tt)
