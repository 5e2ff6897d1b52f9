-- ===== src/Runs.antt =====
-- src/common/m_trees.cpp: the runs that an external sort writes (`Heap::init_phase`, `heap_adjust`,
-- `cleanup`). `flex_buffer_` is the list of the tuples that were stored since its last reset, which is
-- what a growing block keeps, and a file is what `persist` wrote into it. An iterator over a block is
-- the list of the tuples that it has still to give.
pub mod Ascending
pub mod Init
pub mod Branches
pub mod Adjust
pub mod Held
pub mod Cleanup
use mosito.Base.{
  ℕ, zero, suc, ◌+◌, ◌-◌, Bool, true, false, List, [], ◌∷◌, ◌++◌, length, get_or, set, ltb, leb,
  ◌==◌, if◌then◌else◌,
}
use mosito.Heap.{heap_again, heap_sort}

-- HEAP_SIZE.
abbrev pub heap_size : ℕ
heap_size = 100

module _ {ℓ} {T : Type ℓ} (compare : T → T → Bool) (nothing : T) where
  pub record Sorter : Type ℓ where
    pub waterline : ℕ
    pub array : List T
    pub flex_buffer : List T
    pub init_flag : Bool
    pub file_off : ℕ
    pub files : List (ℕ × List T)

  -- `array_[waterline_++]=tuple`
  unfoldable pub put_tuple : Sorter → T → Sorter
  put_tuple s tuple = record s {
    array = set s.array s.waterline tuple;
    waterline = s.waterline + 1;
  }

  unfoldable pub put_all : Sorter → List T → Sorter
  unfolding put_tuple
  put_all s [] = s
  put_all s (tuple ∷ tuples) = put_all (put_tuple s tuple) tuples

  -- The second loop: the tuple that finds the heap full has been taken from the iterator.
  unfoldable pub put_room : Sorter → List T → List T × Sorter
  unfolding put_tuple
  put_room s [] = ([], s)
  put_room s (tuple ∷ tuples) =
      let rest = put_room (put_tuple s tuple) tuples in
      if ltb s.waterline heap_size then rest else (tuples, s)

  -- The answer, what is left in the iterator, and the new state. `total` is the tuples that the block
  -- has in all, `bi.get_size()`, and `tuples` those that the iterator has still to give.
  unfoldable pub init_phase : Sorter → ℕ → List T → Bool × List T × Sorter
  unfolding put_all put_room
  init_phase s total tuples =
      if leb total heap_size
      then (false, [], put_all (record s { init_flag = true }) tuples)
      else (let r = put_room (record s { init_flag = true }) tuples in (true, r.0, r.1))

  -- `flex_buffer_->persist` under the next name, and the reset of the buffer and the waterline.
  unfoldable pub end_run : Sorter → Sorter
  end_run s = record s {
    files = s.files ++ (s.file_off, s.flex_buffer) ∷ [];
    file_off = s.file_off + 1;
    flex_buffer = [];
    waterline = heap_size;
  }

  unfoldable pub heap_adjust : Sorter → T → Sorter
  unfolding heap_again end_run
  heap_adjust s tuple =
      let top = get_or s.array 0 nothing in
      let stored = record s { flex_buffer = s.flex_buffer ++ top ∷ [] } in
      let below = s.waterline - 1 in
      if compare tuple top
      then (if below == 0
          then record (end_run (record stored { array = set s.array 0 tuple })) {
            init_flag = false;
          }
          else record stored {
            waterline = below;
            array =
                heap_again compare nothing
                  (set (set s.array 0 (get_or s.array below nothing)) below tuple) 0 below;
          })
      else record stored { array = heap_again compare nothing (set s.array 0 tuple) 0 s.waterline }

  -- The loop of `cleanup` from `waterline_` down to 0: the tuples that are stored.
  unfoldable pub cleanup_from : ℕ → List T → List T
  cleanup_from zero array = get_or (heap_again compare nothing array 0 0) 0 nothing ∷ []
  cleanup_from (suc below) array =
      let sifted = heap_again compare nothing array 0 (suc below) in
      get_or sifted 0 nothing ∷ cleanup_from below (set sifted 0 (get_or sifted below nothing))

  -- The buffer and the waterline are not reset after the last file, and the array is not used again.
  unfoldable pub cleanup : Sorter → List (ℕ × List T)
  unfolding end_run cleanup_from heap_sort
  cleanup s =
      let ended = end_run s in
      ended.files
      ++ (ended.file_off, cleanup_from heap_size (heap_sort compare nothing ended.array heap_size))
        ∷ []
