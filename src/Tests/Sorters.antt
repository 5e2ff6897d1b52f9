-- ===== src/Tests/Sorters.antt =====
-- A sorter of numbers with a full heap.
use mosito.Base.{
  ℕ, ◌+◌, ◌<◌, ◌≡◌, refl, Bool, true, false, List, [], ◌∷◌, ◌++◌, ◌⊎◌, length, get_or, take,
  replicate, leb, arith,
}
use mosito.Heap.{heap_sort, heap_again, heap_again_from, swap, smaller_child}
use mosito.Heap.Sift.{IsOrder}
use mosito.Heap.Same.{bit, count}
use mosito.Runs.{heap_size, Sorter, heap_adjust, cleanup_from, cleanup}
use mosito.Runs.Ascending.{IsAscending}
use mosito.Runs.Adjust.{IsRun, IsEnded, heap_adjust-runs, heap_sort-IsRun}
use mosito.Runs.Held.{held, heap_adjust-held}
use mosito.Runs.Cleanup.{cleanup-last}

leb-IsOrder : IsOrder leb
leb-IsOrder = record { total = λ x y h. ground arith; trans = λ x y z h k. ground arith }

abbrev sorter : Sorter leb 0
sorter = record {
  waterline = heap_size;
  array = 9 ∷ 3 ∷ replicate 98 7;
  flex_buffer = [];
  init_flag = true;
  file_off = 0;
  files = [];
}

abbrev heaped : Sorter leb 0
heaped = record sorter { array = heap_sort leb 0 sorter.array heap_size }

abbrev unfilled : Sorter leb 0
unfilled = record sorter { waterline = 0; array = replicate heap_size 0 }

abbrev stream : List ℕ
stream = replicate 30 4

heap_adjust-runs_example :
    (((heaped.waterline ≡ 1)
        × (leb 5 (get_or heaped.array 0 0) ≡ true)
        × IsEnded leb 0 leb-IsOrder heaped (heap_adjust leb 0 heaped 5))
      ⊎ (((1 < heaped.waterline) ⊎ (leb 5 (get_or heaped.array 0 0) ≡ false))
          × IsRun leb 0 leb-IsOrder (heap_adjust leb 0 heaped 5)
          × ((heap_adjust leb 0 heaped 5).files ≡ heaped.files)))
heap_adjust-runs_example =
    heap_adjust-runs leb 0 leb-IsOrder heaped 5
      (heap_sort-IsRun leb 0 leb-IsOrder sorter refl refl refl)

heap_adjust-held_example :
    held leb 0 (leb 7) (heap_adjust leb 0 sorter 5) ≡ held leb 0 (leb 7) sorter + bit (leb 7 5)
heap_adjust-held_example = heap_adjust-held leb 0 (leb 7) sorter 5 (omega arith) (omega arith)

cleanup-last_example :
    (run : List ℕ) × (cleanup leb 0 sorter
      ≡ sorter.files ++ (sorter.file_off, sorter.flex_buffer) ∷ (sorter.file_off + 1, run) ∷ [])
    × IsAscending leb run
    × (length run ≡ heap_size + 1)
    × ((p : ℕ → Bool)
        → count p run ≡ count p (take heap_size sorter.array) + bit (p (get_or run heap_size 0)))
cleanup-last_example = cleanup-last leb 0 leb-IsOrder sorter (omega arith)

-- From a window of three the largest comes twice.
drained : cleanup_from leb 0 3 (2 ∷ 5 ∷ 8 ∷ []) ≡ 2 ∷ 5 ∷ 8 ∷ 8 ∷ []
unfolding cleanup_from heap_again heap_again_from swap smaller_child
drained = refl
