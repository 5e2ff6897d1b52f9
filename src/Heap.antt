-- ===== src/Heap.antt =====
-- src/common/m_trees.h and m_trees.cpp: the heap of tuple pointers. The array is a list over a type
-- of tuples, with `nothing` for what is read outside it.
pub mod Sift
pub mod Again
pub mod Same
pub mod Rounds
pub mod Window
use mosito.Base.{
  ℕ, zero, suc, ◌+◌, ◌-◌, ◌*◌, ◌/◌, Bool, true, false, not, ◌&&◌, List, get_or, set, ltb,
  if◌then◌else◌, ◌==◌,
}

module _ {ℓ} {T : Type ℓ} (compare : T → T → Bool) (nothing : T) where
  unfoldable pub swap : List T → ℕ → ℕ → List T
  swap array i j = set (set array i (get_or array j nothing)) j (get_or array i nothing)

  -- The child that `heap_again` compares with node `i`.
  unfoldable pub smaller_child : List T → ℕ → ℕ → ℕ
  smaller_child array i len =
      let child = 2 * i + 1 in
      if ltb (child + 1) len
        && not (compare (get_or array child nothing) (get_or array (child + 1) nothing))
      then child + 1
      else child

  -- The loop of `heap_again`.
  unfoldable pub heap_again_from : ℕ → List T → ℕ → ℕ → List T
  unfolding swap smaller_child
  heap_again_from zero array i len = array
  heap_again_from (suc fuel) array i len =
      elim (ltb (2 * i + 1) len
        && not
            (compare (get_or array i nothing) (get_or array (smaller_child array i len) nothing))) [
              | false ↦ array
              | true ↦
                  heap_again_from fuel (swap array i (smaller_child array i len))
                    (smaller_child array i len) len
            ]

  -- The index grows in every round, so `len` rounds are enough.
  unfoldable pub heap_again : List T → ℕ → ℕ → List T
  heap_again array i len = heap_again_from len array i len

  -- The nodes `n - 1` down to 0.
  unfoldable pub heap_sort_from : ℕ → List T → ℕ → List T
  heap_sort_from zero array waterline = array
  heap_sort_from (suc n) array waterline = heap_sort_from n (heap_again array n waterline) waterline

  -- It starts at `(waterline_ - 2) / 2`, which is -1 for an empty heap and 0 for a single tuple.
  unfoldable pub heap_sort : List T → ℕ → List T
  heap_sort array waterline =
      heap_sort_from (if waterline == 0 then 0 else (waterline - 2) / 2 + 1) array waterline
