-- ===== src/Histogram.antt =====
-- src/analysis/m_histogram.cpp: the histogram of the keys of a file, by one thread and by CPU_CORE
-- threads. A block is the list of the tuples that an iterator gives; a key is the 8-byte word at
-- offset 8.
pub mod Threads
use mosito.Base.{ℕ, zero, suc, ◌+◌, ◌-◌, ◌*◌, ◌/◌, ◌%◌, List, [], ◌∷◌, ◌++◌, get_or, set, replicate}
use mosito.Sort.{key}
use mosito.Configuration.{cpu_core}
use mosito.Shuffle.{Tuple}

-- HIST_SIZE.
abbrev pub hist_size : ℕ
hist_size = 262144

-- `(value*HIST_SIZE)/10000000` in 64 bits.
unfoldable pub bin : Tuple → ℕ
bin tuple = key tuple * hist_size % 18446744073709551616 / 10000000

-- `histogram_[..]++` on an int, and `hist_[..]->increase()` on an unsigned.
unfoldable pub count_up : List ℕ → Tuple → List ℕ
unfolding bin
count_up histogram tuple = set histogram (bin tuple) (get_or histogram (bin tuple) 0 + 1)

unfoldable pub increase : List ℕ → Tuple → List ℕ
unfolding bin
increase hist tuple = set hist (bin tuple) ((get_or hist (bin tuple) 0 + 1) % 4294967296)

-- Both start with zeros.
abbrev pub zeros : List ℕ
zeros = replicate hist_size 0

unfoldable pub eval_block : List ℕ → List Tuple → List ℕ
unfolding count_up
eval_block histogram [] = histogram
eval_block histogram (tuple ∷ tuples) = eval_block (count_up histogram tuple) tuples

-- `Histogram::eval` over the blocks that it has read.
unfoldable pub eval : List ℕ → List (List Tuple) → List ℕ
unfolding eval_block
eval histogram [] = histogram
eval histogram (block ∷ blocks) = eval (eval_block histogram block) blocks

-- What a thread does in `pthread_e`: it passes over `skip` blocks, takes one, and goes on CPU_CORE
-- blocks later.
unfoldable pub pthread_e : ℕ → List (List Tuple) → List Tuple
pthread_e skip [] = []
pthread_e zero (block ∷ blocks) = block ++ pthread_e (cpu_core - 1) blocks
pthread_e (suc skip) (block ∷ blocks) = pthread_e skip blocks

-- The increments, in the order in which the threads come to them.
unfoldable pub increase_all : List ℕ → List Tuple → List ℕ
unfolding increase
increase_all hist [] = hist
increase_all hist (tuple ∷ tuples) = increase_all (increase hist tuple) tuples
