-- ===== src/Runs/Branches.antt =====
-- src/common/m_trees.cpp: what `heap_adjust` computes on each of its branches.
use mosito.Base.{ℕ, ◌+◌, ◌-◌, ◌≡◌, refl, Bool, true, false, List, [], ◌∷◌, ◌++◌, get_or, set, ◌==◌}
use mosito.Heap.{heap_again}
use mosito.Runs.{heap_size, Sorter, end_run, heap_adjust}

module _ {ℓ} {T : Type ℓ} (compare : T → T → Bool) (nothing : T) where
  abbrev at : List T → ℕ → T
  at array i = get_or array i nothing

  pub adjust_up :
      (s : Sorter compare nothing) (tuple : T)
      → compare tuple (at s.array 0) ≡ false
      → heap_adjust compare nothing s tuple ≡ record s {
        flex_buffer = s.flex_buffer ++ at s.array 0 ∷ [];
        array = heap_again compare nothing (set s.array 0 tuple) 0 s.waterline;
      }
  unfolding heap_adjust
  adjust_up s tuple e = rw (e, heap_adjust) refl

  pub adjust_park :
      (s : Sorter compare nothing) (tuple : T)
      → compare tuple (at s.array 0) ≡ true
      → (s.waterline - 1 == 0) ≡ false
      → heap_adjust compare nothing s tuple ≡ record s {
        flex_buffer = s.flex_buffer ++ at s.array 0 ∷ [];
        waterline = s.waterline - 1;
        array =
            heap_again compare nothing
              (set (set s.array 0 (at s.array (s.waterline - 1))) (s.waterline - 1) tuple)
              0
              (s.waterline - 1);
      }
  unfolding heap_adjust
  adjust_park s tuple e f = rw (e, f, heap_adjust) refl

  pub adjust_end :
      (s : Sorter compare nothing) (tuple : T)
      → compare tuple (at s.array 0) ≡ true
      → (s.waterline - 1 == 0) ≡ true
      → heap_adjust compare nothing s tuple ≡ record {
        waterline = heap_size;
        array = set s.array 0 tuple;
        flex_buffer = [];
        init_flag = false;
        file_off = s.file_off + 1;
        files = s.files ++ (s.file_off, s.flex_buffer ++ at s.array 0 ∷ []) ∷ [];
      }
  unfolding heap_adjust end_run
  adjust_end s tuple e f = rw (e, f, heap_adjust) refl
