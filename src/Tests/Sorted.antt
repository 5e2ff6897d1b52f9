-- ===== src/Tests/Sorted.antt =====
-- A sort of four tuples by an insertion sort, two pages in and two out.
use mosito.Base.{
  ℕ, ◌≡◌, refl, Bool, true, false, List, [], ◌∷◌, none, some, concat, All, length, replicate,
  length-replicate, arith, if◌then◌else◌, ◌≢◌, All-map, Bool-cases, inl, inr, ◌⊎◌, ◌+◌,
}
use mosito.Base.Bytes.{get_u64}
use mosito.Heap.Same.{bit, count}
use mosito.Page.{room, counted}
use mosito.Sort.{
  bounds_of, Sort, key, compare, prelude, gather, execute, fill_from, pop_back, distribute,
  compare_start_end, compare_start_end_from,
}
use mosito.Sort.Ranges.{IsBelow}
use mosito.Sort.Remaining.{Tuples}
use mosito.Sort.Ascending.{Distinct, IsOrdered, IsAscending, IsStableSort}
use mosito.Sort.Calls.{IsFilled, shown}
use mosito.Sort.Sorted.{gather-prelude}
use mosito.Shuffle.{partition, bounds}
use mosito.Sort.Routed.{gather-routed}
use mosito.Sort.Undefined.{Uncovered, prelude_cases}

-- A tuple goes before the first one that may not stand before it.
insert_sorted : List ℕ → Tuples → Tuples
insert_sorted x [] = x ∷ []
insert_sorted x (y ∷ ys) = if compare y x then y ∷ insert_sorted x ys else x ∷ y ∷ ys

insertion_sort : Tuples → Tuples
unfolding insert_sorted
insertion_sort [] = []
insertion_sort (x ∷ xs) = insert_sorted x (insertion_sort xs)

insert_sorted-All {κ} :
    (P : List ℕ → Type κ) (x : List ℕ) (ys : Tuples) → P x → All P ys → All P (insert_sorted x ys)
unfolding insert_sorted
insert_sorted-All P x [] p h = (p, tt)
insert_sorted-All P x (y ∷ ys) p (q, h) = elim (Bool-cases (compare y x)) [
  | inl e ↦ rw e (q, insert_sorted-All P x ys p h)
  | inr e ↦ rw e (p, (q, h))
]

insertion_sort-All {κ} : (P : List ℕ → Type κ) (xs : Tuples) → All P xs → All P (insertion_sort xs)
unfolding insertion_sort
insertion_sort-All P [] h = tt
insertion_sort-All P (x ∷ xs) (p, h) =
    insert_sorted-All P x (insertion_sort xs) p (insertion_sort-All P xs h)

reversed : (x y : List ℕ) → compare y x ≡ true → key x ≢ key y → compare x y ≡ false
unfolding compare
reversed x y e d = ground (arith, e, d)

after : (x y z : List ℕ) → compare y x ≡ false → compare z y ≡ false → compare z x ≡ false
unfolding compare
after x y z e f = ground (arith, e, f)

insert_sorted-IsOrdered :
    (x : List ℕ) (ys : Tuples)
    → All (λ y. key x ≢ key y) ys
    → IsOrdered ys
    → IsOrdered (insert_sorted x ys)
unfolding insert_sorted
insert_sorted-IsOrdered x [] n h = (tt, tt)
insert_sorted-IsOrdered x (y ∷ ys) (d, n) (g, h) = elim (Bool-cases (compare y x)) [
  | inl e ↦ rw e (
    insert_sorted-All (λ z. compare z y ≡ false) x ys (reversed x y e d) g,
    insert_sorted-IsOrdered x ys n h,
  )
  | inr e ↦ rw e ((e, All-map ys (λ z f. after x y z e f) g), (g, h))
]

insert_sorted-count :
    (p : List ℕ → Bool) (x : List ℕ) (ys : Tuples)
    → count p (insert_sorted x ys) ≡ bit (p x) + count p ys
unfolding insert_sorted
insert_sorted-count p x [] = refl
insert_sorted-count p x (y ∷ ys) = elim (Bool-cases (compare y x)) [
  | inl e ↦ rw e (omega (arith, insert_sorted-count p x ys))
  | inr e ↦ rw e refl
]

insertion_sort-IsStableSort : IsStableSort insertion_sort
unfolding insertion_sort
insertion_sort-IsStableSort = record { ordered = ordered; same = λ xs p d. same xs p }
  where
    ordered : (xs : Tuples) → Distinct xs → IsOrdered (insertion_sort xs)
    ordered [] d = tt
    ordered (x ∷ xs) (d, ds) =
        insert_sorted-IsOrdered x (insertion_sort xs) (insertion_sort-All _ xs d) (ordered xs ds)

    same : (xs : Tuples) (p : List ℕ → Bool) → count p (insertion_sort xs) ≡ count p xs
    same [] p = refl
    same (x ∷ xs) p = omega (arith, insert_sorted-count p x (insertion_sort xs), same xs p)

abbrev tuple : ℕ → List ℕ
tuple k = 0 ∷ 0 ∷ 0 ∷ 0 ∷ 0 ∷ 0 ∷ 0 ∷ 0 ∷ k ∷ 0 ∷ 0 ∷ 0 ∷ 0 ∷ 0 ∷ 0 ∷ 0 ∷ []

abbrev two_pages : List Tuples
two_pages = (tuple 7 ∷ tuple 3 ∷ []) ∷ (tuple 5 ∷ tuple 25 ∷ []) ∷ []

abbrev four_bounds : List ℕ
four_bounds = 10 ∷ 20 ∷ 30 ∷ 40 ∷ []

abbrev stale : Tuples
stale = tuple 0 ∷ tuple 1 ∷ tuple 2 ∷ []

-- Tuples of 30000 bytes, which are written here without their last bytes: two fit into a page, and the
-- two calls give all four, ascending.
all_four :
    elim (prelude insertion_sort four_bounds two_pages) [
      | none ↦ none
      | some s ↦ gather 30000 5 (tuple 0 ∷ tuple 1 ∷ []) s
    ]
    ≡ some ((tuple 3 ∷ tuple 5 ∷ []) ∷ (tuple 7 ∷ tuple 25 ∷ []) ∷ [])
unfolding prelude distribute compare_start_end compare_start_end_from gather execute fill_from
    pop_back insertion_sort insert_sorted compare get_u64
all_four = refl

-- Tuples of 20000 bytes, so that three fit: the second page has two stale tuples.
three_then_one :
    elim (prelude insertion_sort four_bounds two_pages) [
      | none ↦ none
      | some s ↦ gather 20000 5 stale s
    ]
    ≡ some ((tuple 3 ∷ tuple 5 ∷ tuple 7 ∷ []) ∷ (tuple 25 ∷ tuple 5 ∷ tuple 7 ∷ []) ∷ [])
unfolding prelude distribute compare_start_end compare_start_end_from gather execute fill_from
    pop_back insertion_sort insert_sorted compare get_u64
three_then_one = refl

two_pages-IsBelow : All (λ t. IsBelow four_bounds (key t)) (concat two_pages)
unfolding get_u64
two_pages-IsBelow = (
  (0, omega arith, omega arith),
  (
    (0, omega arith, omega arith),
    ((0, omega arith, omega arith), ((2, omega arith, omega arith), tt)),
  ),
)

two_pages-Distinct : Distinct (concat two_pages)
unfolding get_u64
two_pages-Distinct = (
  (
    λ e. absurd (omega (arith, e)),
    ((λ e. absurd (omega (arith, e)), ((λ e. absurd (omega (arith, e)), tt)))),
  ),
  (
    (λ e. absurd (omega (arith, e)), ((λ e. absurd (omega (arith, e)), tt))),
    ((λ e. absurd (omega (arith, e)), tt), (tt, tt)),
  ),
)

-- A block that is in use.
abbrev used : Tuples
used = replicate (counted 16) (tuple 0)

gather-prelude_example :
    (s : Sort) × (stored : List Tuples) × (prelude insertion_sort four_bounds two_pages ≡ some s)
    × (gather 16 5 used s ≡ some (shown 16 used stored))
    × All (λ page. length page ≡ counted 16) (shown 16 used stored)
    × IsAscending (concat stored)
    × ((p : List ℕ → Bool) → count p (concat stored) ≡ count p (concat two_pages))
    × IsFilled (room 16) stored
gather-prelude_example =
    gather-prelude insertion_sort four_bounds two_pages 16 5 used insertion_sort-IsStableSort refl
      two_pages-IsBelow two_pages-Distinct (omega arith) (omega arith)
      (length-replicate (counted 16) (tuple 0)) (omega arith)

abbrev key_too_large : List Tuples
key_too_large = (tuple 7 ∷ tuple 45 ∷ []) ∷ []

no_range : prelude insertion_sort four_bounds key_too_large ≡ none
unfolding prelude distribute compare_start_end compare_start_end_from get_u64
no_range = refl

prelude_cases_example :
    (All (λ t. IsBelow four_bounds (key t)) (concat key_too_large)
      × ((s : Sort) × (prelude insertion_sort four_bounds key_too_large ≡ some s)))
    ⊎ (Uncovered four_bounds (concat key_too_large)
        × (prelude insertion_sort four_bounds key_too_large ≡ none))
prelude_cases_example = prelude_cases insertion_sort four_bounds key_too_large

abbrev in_third : ℕ → List ℕ
in_third k = 0 ∷ 0 ∷ 0 ∷ 0 ∷ 0 ∷ 0 ∷ 0 ∷ 0 ∷ k ∷ 0 ∷ 0 ∷ 2 ∷ 0 ∷ 0 ∷ 0 ∷ 0 ∷ []

-- 33554432 + k is between 25000000 and 37500000.
third-routed :
    (partition (in_third 9) (bounds 8) ≡ some 2) × (partition (in_third 4) (bounds 8) ≡ some 2)
unfolding partition compare_start_end compare_start_end_from get_u64
third-routed = (refl, refl)

third-Distinct : Distinct (in_third 9 ∷ in_third 4 ∷ [])
unfolding get_u64
third-Distinct = ((λ e. absurd (omega (arith, e)), tt), (tt, tt))

gather-routed_example :
    (s : Sort) × (stored : List Tuples) × (prelude insertion_sort
        (bounds_of 2 4)
        ((in_third 9 ∷ in_third 4 ∷ []) ∷ [])
      ≡ some s)
    × (gather 16 5 used s ≡ some (shown 16 used stored))
    × All (λ page. length page ≡ counted 16) (shown 16 used stored)
    × IsAscending (concat stored)
    × ((p : List ℕ → Bool) → count p (concat stored) ≡ count p (in_third 9 ∷ in_third 4 ∷ []))
    × IsFilled (room 16) stored
gather-routed_example =
    gather-routed insertion_sort 8 2 ((in_third 9 ∷ in_third 4 ∷ []) ∷ []) 16 5 used
      insertion_sort-IsStableSort (third-routed.0, (third-routed.1, tt)) third-Distinct
      (omega arith) (omega arith) (length-replicate (counted 16) (tuple 0)) (omega arith)
