-- ===== src/Sort/Ascending.antt =====
-- src/physical/m_sort.cpp: what `single_sort` leaves in a range, read from its end.
use mosito.Base.{
  ℕ, ◌<◌, ◌≡◌, ◌≢◌, refl, ap, sym, subst, ◌∙◌, Bool, true, false, List, [], ◌∷◌, ◌++◌, ltb, leb,
  le→leb, All-map, arith, Bool-cases, inl, inr, All,
}
use mathlib.Core.List.{reverse, reverse-cons}
use mosito.Heap.Same.{count, count-append, fails, fails-All, All-fails, All-both}
use mosito.Sort.{key, compare}
use mosito.Sort.Ranges.{keep}
use mosito.Sort.Remaining.{Tuples}

-- No key twice.
abbrev pub Distinct : Tuples → Type 0
Distinct [] = Unit
Distinct (x ∷ xs) = All (λ y. key x ≢ key y) xs × Distinct xs

-- No tuple may stand before an earlier one.
abbrev pub IsOrdered : Tuples → Type 0
IsOrdered [] = Unit
IsOrdered (x ∷ xs) = All (λ y. compare y x ≡ false) xs × IsOrdered xs

abbrev pub IsAscending : Tuples → Type 0
IsAscending [] = Unit
IsAscending (x ∷ xs) = All (λ y. key x < key y) xs × IsAscending xs

-- What C++ promises of `stable_sort`. `compare` is a strict weak order, as the library demands, only
-- where no two keys are equal.
pub record IsStableSort (stable_sort : Tuples → Tuples) : Type 0 where
  pub ordered : (xs : Tuples) → Distinct xs → IsOrdered (stable_sort xs)
  pub same : (xs : Tuples) (p : List ℕ → Bool) → Distinct xs → count p (stable_sort xs) ≡ count p xs

pub All-keep : (q : List ℕ → Bool) (xs : Tuples) → All (λ t. q t ≡ true) (keep q xs)
All-keep q [] = tt
All-keep q (x ∷ xs) = elim (Bool-cases (q x)) [
  | inl e ↦ rw e (e, All-keep q xs)
  | inr e ↦ rw e (All-keep q xs)
]

keep-All {κ} :
    (P : List ℕ → Type κ) (q : List ℕ → Bool) (xs : Tuples) → All P xs → All P (keep q xs)
keep-All P q [] h = tt
keep-All P q (x ∷ xs) (h, hs) = elim (Bool-cases (q x)) [
  | inl e ↦ rw e (h, keep-All P q xs hs)
  | inr e ↦ rw e (keep-All P q xs hs)
]

pub keep-Distinct : (q : List ℕ → Bool) (xs : Tuples) → Distinct xs → Distinct (keep q xs)
keep-Distinct q [] h = tt
keep-Distinct q (x ∷ xs) (h, hs) = elim (Bool-cases (q x)) [
  | inl e ↦ rw e (keep-All _ q xs h, keep-Distinct q xs hs)
  | inr e ↦ rw e (keep-Distinct q xs hs)
]

pub count-reverse : (p : List ℕ → Bool) (xs : Tuples) → count p (reverse xs) ≡ count p xs
count-reverse p [] = refl
count-reverse p (x ∷ xs) = omega (
  arith,
  ap (count p) (reverse-cons x xs),
  count-append p (reverse xs) (x ∷ []),
  count-reverse p xs,
)

pub IsAscending-append :
    (b : ℕ) (xs ys : Tuples)
    → IsAscending xs
    → All (λ t. ltb (key t) b ≡ true) xs
    → IsAscending ys
    → All (λ t. leb b (key t) ≡ true) ys
    → IsAscending (xs ++ ys)
IsAscending-append b [] ys h l k g = k
IsAscending-append b (x ∷ xs) ys (h, hs) (l, ls) k g = (
  All-both _ xs ys h (All-map ys (λ t e. ground (arith, l, e)) g),
  IsAscending-append b xs ys hs ls k g,
)

pub reverse-IsAscending : (xs : Tuples) → IsOrdered xs → IsAscending (reverse xs)
unfolding compare
reverse-IsAscending [] h = tt
reverse-IsAscending (x ∷ xs) (h, hs) = subst IsAscending (sym (reverse-cons x xs)) (
    IsAscending-append (key x) (reverse xs) (x ∷ []) (reverse-IsAscending xs hs)
      (All-fails (λ t. ltb (key t) (key x)) (reverse xs)
        (count-reverse (fails (λ t. ltb (key t) (key x))) xs
          ∙ fails-All (λ t. ltb (key t) (key x)) xs (All-map xs (λ t e. ground (arith, e)) h)))
      (tt, tt) (le→leb (key x) (key x) (omega arith), tt))
