-- ===== src/Runs/Init.antt =====
-- src/common/m_trees.cpp: the first tuples of a sort, by `init_phase`.
use mosito.Base.{ℕ, ◌+◌, ◌≡◌, Bool, List, length, take, drop, ltb}
use mosito.Runs.{heap_size, Sorter}

module _ {ℓ} {T : Type ℓ} (compare : T → T → Bool) (nothing : T) where
  -- What `init_phase` leaves of the tuples of an iterator, and what it has put into the array.
  pub record IsFilled (s : Sorter compare nothing) (total : ℕ) (tuples : List T)
      (r : Bool × List T × Sorter compare nothing) : Type ℓ where
    pub answer : r.0 ≡ ltb heap_size total
    pub left : r.1 ≡ drop (heap_size + 1) tuples
    pub waterline : r.2.waterline ≡ length (take heap_size tuples)
    pub array : take r.2.waterline r.2.array ≡ take heap_size tuples
    pub room : length r.2.array ≡ length s.array
