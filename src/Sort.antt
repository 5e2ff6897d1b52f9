-- ===== src/Sort.antt =====
-- src/physical/m_sort.cpp (without MULTI_PARTITION): in the partition phase of `Sort::prelude` each
-- tuple goes to the range of its key, the 8-byte word at offset 8; the ranges are then sorted, and
-- `execute` gives them out from their ends.
pub mod Ranges
pub mod Remaining
pub mod Output
pub mod Calls
pub mod Ascending
pub mod Parts
pub mod Sorted
pub mod Undefined
pub mod Routed
use mosito.Base.{
  ℕ, zero, suc, ◌+◌, ◌-◌, ◌*◌, ◌/◌, Bool, true, false, Option, none, some, List, [], ◌∷◌, ◌++◌, map,
  concat, length, replicate, get_or, set, ltb, ◌==◌, if◌then◌else◌,
}
use mathlib.Core.List.{reverse}
use mosito.Configuration.{cpu_core, datavolume}
use mosito.Page.{room, assembled}
use mosito.Base.Bytes.{get_u64}

abbrev pub key : List ℕ → ℕ
key tuple = get_u64 tuple 8

-- The loop of `Sort::compare_start_end` from bound `i` on; `none` is the missing return at its end.
unfoldable pub compare_start_end_from : ℕ → List ℕ → ℕ → Option ℕ
compare_start_end_from i [] value = none
compare_start_end_from i (b ∷ bs) value =
    let rest = compare_start_end_from (i + 1) bs value in if ltb value b then some i else rest

unfoldable pub compare_start_end : List ℕ → ℕ → Option ℕ
unfolding compare_start_end_from
compare_start_end dist_ranges value = compare_start_end_from 0 dist_ranges value

-- `ranges_[r].push_back(tuple)` for every tuple; `none` when `r` is undefined.
unfoldable pub distribute :
    List ℕ → List (List (List ℕ)) → List (List ℕ) → Option (List (List (List ℕ)))
unfolding compare_start_end
distribute dist_ranges ranges [] = some ranges
distribute dist_ranges ranges (tuple ∷ tuples) = elim (compare_start_end dist_ranges (key tuple)) [
  | none ↦ none
  | some r ↦ distribute dist_ranges (set ranges r (get_or ranges r [] ++ tuple ∷ [])) tuples
]

-- What `prelude` leaves for `execute`. A range is held with its end first.
pub record Sort : Type 0 where
  pub ranges : List (List (List ℕ))
  pub count : ℕ
  pub temp_cur : ℕ

-- The bounds of the ranges on node `th` of `nodes`.
abbrev pub bounds_of : ℕ → ℕ → List ℕ
bounds_of th nodes =
    map (λ i. th * datavolume / nodes + (i + 1) * datavolume / (nodes * cpu_core))
      (0 ∷ 1 ∷ 2 ∷ 3 ∷ [])

-- `Sort::compare`, which answers true for equal keys.
unfoldable pub compare : List ℕ → List ℕ → Bool
compare left right = if ltb (key left) (key right) then false else true

-- `stable_sort` is that of the C++ library, with `compare`. `pages` is what the child gives.
module _ (stable_sort : List (List ℕ) → List (List ℕ)) where
  unfoldable pub prelude : List ℕ → List (List (List ℕ)) → Option Sort
  unfolding distribute
  prelude dist_ranges pages = elim (distribute dist_ranges (replicate cpu_core []) (concat pages)) [
    | none ↦ none
    | some ranges ↦ some (record {
      ranges = map (λ range. reverse (stable_sort range)) ranges;
      count = 0;
      temp_cur = length (concat pages);
    })
  ]

-- The end of range `count_` is taken.
unfoldable pub pop_back : Sort → List (List ℕ) → Sort
pop_back s left = record {
  ranges = set s.ranges s.count left;
  temp_cur = s.temp_cur - 1;
  count = elim left [ [] ↦ s.count + 1 | x ∷ xs ↦ s.count ];
}

-- The inner loop of `execute` with room for `room` more tuples; none when the fuel ends.
unfoldable pub fill_from : ℕ → ℕ → Sort → List (List ℕ) → Option (List (List ℕ) × Sort)
unfolding pop_back
fill_from zero room s block = none
fill_from (suc fuel) zero s block = some (block, s)
fill_from (suc fuel) (suc room) s block = elim (get_or s.ranges s.count []) [
  | [] ↦
      let next = record s { count = s.count + 1 } in
      if s.temp_cur == 0 then some (block, next) else fill_from fuel (suc room) next block
  | tuple ∷ left ↦
      let next = pop_back s left in
      if next.temp_cur == 0
      then some (block ++ tuple ∷ [], next)
      else fill_from fuel room next (block ++ tuple ∷ [])
]

-- The answer, and what a reader of the caller's block then gets, which is what was stored as `assembling`
-- counts it; `block` is what the block held before. In every round a tuple is stored or a range passed.
unfoldable pub execute : ℕ → List (List ℕ) → Sort → Option (Bool × List (List ℕ) × Sort)
unfolding fill_from
execute tuple_size block s =
    if s.temp_cur == 0
    then some (false, block, s)
    else elim (fill_from (room tuple_size + cpu_core + 1) (room tuple_size) s []) [
      | none ↦ none
      | some r ↦ some (true, assembled tuple_size r.0 block, r.1)
    ]

-- `while (execute(block))`: what a reader gets of the block after each call.
unfoldable pub gather : ℕ → ℕ → List (List ℕ) → Sort → Option (List (List (List ℕ)))
unfolding execute
gather tuple_size zero block s = none
gather tuple_size (suc fuel) block s = elim (execute tuple_size block s) [
  | none ↦ none
  | some r ↦ elim (r.0) [
    | false ↦ some []
    | true ↦ elim (gather tuple_size fuel r.1 r.2) [ none ↦ none | some pages ↦ some (r.1 ∷ pages) ]
  ]
]
