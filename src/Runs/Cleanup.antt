-- ===== src/Runs/Cleanup.antt =====
-- src/common/m_trees.cpp: the last run that `cleanup` writes.
use mosito.Base.{
  ℕ, zero, suc, ◌+◌, ◌≤◌, ◌<◌, ◌≡◌, refl, ap, ap₂, ◌∙◌, Bool, true, List, [], ◌∷◌, ◌++◌, length,
  get_or, set, take, All, arith, length-set, get_or-set_self, get_or-set_ne,
}
use mathlib.Core.List.{append_assoc}
use mosito.Heap.{heap_again_from, heap_again, heap_sort}
use mosito.Heap.Sift.{IsOrder, parent, HeapFrom}
use mosito.Heap.Again.{heap_again-HeapFrom, heap_sort-HeapFrom, top_least}
use mosito.Heap.Same.{bit, count, heap_again-Same, heap_sort-Same}
use mosito.Heap.Window.{IsBound, heap_again-IsBound, count-take-heap_again, count-take-heap_sort}
use mosito.Runs.{heap_size, Sorter, end_run, cleanup_from, cleanup}
use mosito.Runs.Ascending.{IsAscending}

count-take-suc {ℓ} :
    {T : Type ℓ} (p : T → Bool) (n : ℕ) (xs : List T) (d : T)
    → n < length xs
    → count p (take (suc n) xs) ≡ count p (take n xs) + bit (p (get_or xs n d))
count-take-suc p n [] d h = absurd (omega arith)
count-take-suc p zero (x ∷ xs) d h = omega arith
count-take-suc p (suc n) (x ∷ xs) d h = omega (arith, count-take-suc p n xs d (omega arith))

-- The top goes and the last of the window takes its place.
count-take_popped {ℓ} :
    {T : Type ℓ} (p : T → Bool) (n : ℕ) (xs : List T) (d : T)
    → n < length xs
    → count p (take (suc n) xs)
      ≡ bit (p (get_or xs 0 d)) + count p (take n (set xs 0 (get_or xs n d)))
count-take_popped p n [] d h = absurd (omega arith)
count-take_popped p zero (x ∷ xs) d h = omega arith
count-take_popped p (suc n) (x ∷ xs) d h = omega (arith, count-take-suc p n xs d (omega arith))

module _ {ℓ} {T : Type ℓ} (compare : T → T → Bool) (nothing : T) (order : IsOrder compare) where
  abbrev at : List T → ℕ → T
  at array i = get_or array i nothing

  abbrev Heaped : ℕ → ℕ → List T → Type 0
  Heaped = HeapFrom compare nothing order

  abbrev sift : ℕ → List T → List T
  sift len array = heap_again compare nothing array 0 len

  abbrev popped : ℕ → List T → List T
  popped below array = set array 0 (at array below)

  sift_heap :
      (len : ℕ) (array : List T)
      → len ≤ length array
      → Heaped 1 len array
      → Heaped 0 len (sift len array) × (length (sift len array) ≡ length array)
  sift_heap len array l h = heap_again-HeapFrom compare nothing order 0 len array l h

  popped-Heaped :
      (below : ℕ) (array : List T)
      → Heaped 0 (suc below) array
      → Heaped 1 below (popped below array)
  popped-Heaped below array h c p q r =
      ap₂ compare (get_or-set_ne array 0 (parent c) (at array below) nothing (omega arith))
        (get_or-set_ne array 0 c (at array below) nothing (omega arith))
      ∙ h c p (omega arith) (omega arith)

  popped_top :
      (below : ℕ) (array : List T)
      → below < length array
      → at (popped below array) 0 ≡ at array below
  popped_top below array l = get_or-set_self array 0 (at array below) nothing (omega arith)

  popped-IsBound :
      (x : T) (below : ℕ) (array : List T)
      → below < length array
      → IsBound compare nothing x (suc below) array
      → IsBound compare nothing x below (popped below array)
  popped-IsBound x below array l b zero m =
      ap (compare x) (popped_top below array l) ∙ b below (omega arith)
  popped-IsBound x below array l b (suc c) m =
      ap (compare x) (get_or-set_ne array 0 (suc c) (at array below) nothing (omega arith))
      ∙ b (suc c) (omega arith)

  zero_sift : (array : List T) → sift 0 array ≡ array
  unfolding heap_again heap_again_from
  zero_sift array = refl

  length-sift :
      (len : ℕ) (array : List T) → len ≤ length array → length (sift len array) ≡ length array
  length-sift len array l = (heap_again-Same compare nothing (λ x. true) len 0 array l).1

  -- What is in order with the whole window is in order with all that is written.
  cleanup_from-All :
      (x : T) (n : ℕ) (array : List T)
      → n ≤ length array
      → compare x (at array 0) ≡ true
      → IsBound compare nothing x n array
      → All (λ y. compare x y ≡ true) (cleanup_from compare nothing n array)
  unfolding cleanup_from
  cleanup_from-All x zero array l t b = (ap (λ a. compare x (at a 0)) (zero_sift array) ∙ t, tt)
  cleanup_from-All x (suc below) array l t b =
      let sifted = sift (suc below) array in
      let c = heap_again-IsBound compare nothing x (suc below) 0 array l b in
      let m = length-sift (suc below) array l in
      (
        c 0 (omega arith),
        cleanup_from-All x below (popped below sifted)
            (omega (arith, length-set sifted 0 (at sifted below), m))
            (ap (compare x) (popped_top below sifted (omega (arith, m))) ∙ c below (omega arith))
            (popped-IsBound x below sifted (omega (arith, m)) c),
      )

  -- What is known of the tuples that `cleanup` writes from a window of `n`.
  record IsDrained (n : ℕ) (array run : List T) : Type ℓ where
    pub ascending : IsAscending compare run
    pub size : length run ≡ suc n
    pub tuples : (p : T → Bool) → count p run ≡ count p (take n array) + bit (p (at run n))

  cleanup_from-IsDrained :
      (n : ℕ) (array : List T)
      → n ≤ length array
      → Heaped 1 n array
      → IsDrained n array (cleanup_from compare nothing n array)
  unfolding cleanup_from
  cleanup_from-IsDrained zero array l h = record {
    ascending = (tt, tt);
    size = refl;
    tuples = λ p. omega arith;
  }
  cleanup_from-IsDrained (suc below) array l h =
      let sifted = sift (suc below) array in
      let t = sift_heap (suc below) array l h in
      let inside : below < length sifted = omega (arith, t.1) in
      let least : IsBound compare nothing (at sifted 0) (suc below) sifted =
        λ c k. top_least compare nothing order (suc below) (suc below) sifted t.0 c k k in
      let room : below ≤ length (popped below sifted) =
        omega (arith, length-set sifted 0 (at sifted below), t.1) in
      let rest =
        cleanup_from-IsDrained below (popped below sifted) room (popped-Heaped below sifted t.0) in
      record {
        ascending = (
          cleanup_from-All (at sifted 0) below (popped below sifted) room
              (ap (compare (at sifted 0)) (popped_top below sifted inside)
                ∙ least below (omega arith))
              (popped-IsBound (at sifted 0) below sifted inside least),
          rest.ascending,
        );
        size = ap suc rest.size;
        tuples = λ p. omega (
          arith,
          rest.tuples p,
          count-take_popped p below sifted nothing (omega (arith, t.1)),
          count-take-heap_again compare nothing p (suc below) 0 array l,
        );
      }

  -- `cleanup` over a total preorder, when the array holds HEAP_SIZE tuples or more: it writes the
  -- tuples of the buffer as one file, and a last one. The last file is ascending and holds the first
  -- HEAP_SIZE tuples of the array and, once more, the last of them that it wrote.
  pub cleanup-last :
      (s : Sorter compare nothing)
      → heap_size ≤ length s.array
      → (run : List T) × (cleanup compare nothing s
          ≡ s.files ++ (s.file_off, s.flex_buffer) ∷ (s.file_off + 1, run) ∷ [])
        × IsAscending compare run
        × (length run ≡ heap_size + 1)
        × ((p : T → Bool)
            → count p run ≡ count p (take heap_size s.array) + bit (p (at run heap_size)))
  unfolding cleanup end_run
  cleanup-last s l =
      let sorted = heap_sort compare nothing s.array heap_size in
      let same = (heap_sort-Same compare nothing (λ x. true) heap_size s.array l).1 in
      let d = cleanup_from-IsDrained heap_size sorted (omega (arith, same)) (λ c p q r.
        heap_sort-HeapFrom compare nothing order heap_size s.array l c p q (omega arith)) in
      (
        cleanup_from compare nothing heap_size sorted,
        append_assoc s.files _ _,
        d.ascending,
        d.size,
        (λ p.
            omega (arith, d.tuples p, count-take-heap_sort compare nothing p heap_size s.array l)),
      )
