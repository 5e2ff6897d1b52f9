-- ===== src/Runs/Held.antt =====
-- src/common/m_trees.cpp: `heap_adjust` loses no tuple and adds none but the one it is given.
use mosito.Base.{
  ℕ, ◌+◌, ◌-◌, ◌≤◌, ◌<◌, ◌≡◌, ap, Bool, List, [], ◌∷◌, ◌++◌, length, get_or, set, ◌==◌, arith,
  Bool-cases, inl, inr, length-set, get_or-set_ne,
}
use mosito.Heap.Same.{bit, count, count-set, heap_again-Same}
use mosito.Runs.{Sorter, heap_adjust}
use mosito.Runs.Branches.{adjust_up, adjust_park, adjust_end}

count-snoc {ℓ} :
    {T : Type ℓ} (p : T → Bool) (xs : List T) (y : T)
    → count p (xs ++ y ∷ []) ≡ count p xs + bit (p y)
count-snoc p [] y = omega arith
count-snoc p (x ∷ xs) y = omega (arith, count-snoc p xs y)

abbrev pub count_files {ℓ} : {T : Type ℓ} → (T → Bool) → List (ℕ × List T) → ℕ
count_files p [] = 0
count_files p (f ∷ fs) = count p f.1 + count_files p fs

count_files-snoc {ℓ} :
    {T : Type ℓ} (p : T → Bool) (fs : List (ℕ × List T)) (n : ℕ) (xs : List T)
    → count_files p (fs ++ (n, xs) ∷ []) ≡ count_files p fs + count p xs
count_files-snoc p [] n xs = omega arith
count_files-snoc p (f ∷ fs) n xs = omega (arith, count_files-snoc p fs n xs)

module _ {ℓ} {T : Type ℓ} (compare : T → T → Bool) (nothing : T) where
  abbrev at : List T → ℕ → T
  at array i = get_or array i nothing

  -- The tuples with the property `p` in the files, in the buffer and in the array.
  abbrev pub held : (T → Bool) → Sorter compare nothing → ℕ
  held p s = count_files p s.files + count p s.flex_buffer + count p s.array

  held_eq : (p : T → Bool) (s t : Sorter compare nothing) → s ≡ t → held p s ≡ held p t
  held_eq p s t e = ap (held p) e

  -- The top goes, and the tuple is parked at the end of what is left.
  parked :
      (p : T → Bool) (array : List T) (below : ℕ) (tuple : T)
      → 0 < below
      → below < length array
      → count p (set (set array 0 (at array below)) below tuple) + bit (p (at array 0))
        ≡ count p array + bit (p tuple)
  parked p array below tuple h k = omega (
    arith,
    count-set p array 0 (at array below) nothing (omega arith),
    count-set p (set array 0 (at array below)) below tuple nothing
        (omega (arith, length-set array 0 (at array below))),
    ap (λ x. bit (p x)) (get_or-set_ne array 0 below (at array below) nothing (omega arith)),
  )

  -- Of the tuples with any property the files, the buffer and the array of the sorter hold after
  -- `heap_adjust` as many as before, and the given tuple. The waterline is positive and within the
  -- array.
  pub heap_adjust-held :
      (p : T → Bool) (s : Sorter compare nothing) (tuple : T)
      → 0 < s.waterline
      → s.waterline ≤ length s.array
      → held p (heap_adjust compare nothing s tuple) ≡ held p s + bit (p tuple)
  heap_adjust-held p s tuple h k =
      let top = at s.array 0 in
      let below = s.waterline - 1 in
      let stored = count-snoc p s.flex_buffer top in
      elim (Bool-cases (compare tuple top)) [
        | inr e ↦ omega (
          arith,
          held_eq p _ _ (adjust_up compare nothing s tuple e),
          stored,
          count-set p s.array 0 tuple nothing (omega arith),
          (heap_again-Same compare nothing p s.waterline 0 (set s.array 0 tuple)
              (omega (arith, length-set s.array 0 tuple))).0,
        )
        | inl e ↦ elim (Bool-cases (below == 0)) [
          | inl f ↦ omega (
            arith,
            held_eq p _ _ (adjust_end compare nothing s tuple e f),
            stored,
            count_files-snoc p s.files s.file_off (s.flex_buffer ++ top ∷ []),
            count-set p s.array 0 tuple nothing (omega arith),
          )
          | inr f ↦ omega (
            arith,
            held_eq p _ _ (adjust_park compare nothing s tuple e f),
            stored,
            parked p s.array below tuple (ground arith) (omega arith),
            (heap_again-Same compare nothing p below 0
                (set (set s.array 0 (at s.array below)) below tuple)
                (omega (
                  arith,
                  length-set s.array 0 (at s.array below),
                  length-set (set s.array 0 (at s.array below)) below tuple,
                ))).0,
          )
        ]
      ]
