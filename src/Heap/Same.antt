-- ===== src/Heap/Same.antt =====
-- Sifting only moves tuples: of the tuples with any property it keeps the number.
use mosito.Base.{
  ℕ, zero, suc, ◌+◌, ◌≤◌, ◌<◌, ◌≡◌, refl, ap, ◌∙◌, Bool, true, false, not, All, Bool-cases, inl,
  inr, List, [], ◌∷◌, ◌++◌, get_or, set, length, arith, length-set,
}
use mosito.Heap.{swap, heap_again, heap_sort}
use mosito.Heap.Rounds.{heap_again_ind, heap_sort_ind}

abbrev pub bit : Bool → ℕ
bit true = 1
bit false = 0

abbrev pub count {ℓ} : {T : Type ℓ} → (T → Bool) → List T → ℕ
count p [] = 0
count p (x ∷ xs) = bit (p x) + count p xs

pub count-set {ℓ} :
    {T : Type ℓ} (p : T → Bool) (xs : List T) (i : ℕ) (v d : T)
    → i < length xs
    → count p (set xs i v) + bit (p (get_or xs i d)) ≡ count p xs + bit (p v)
count-set p [] i v d h = absurd (omega arith)
count-set p (x ∷ xs) zero v d h = omega arith
count-set p (x ∷ xs) (suc i) v d h = omega (arith, count-set p xs i v d (omega arith))

pub count-append {ℓ} :
    {T : Type ℓ} (p : T → Bool) (xs ys : List T) → count p (xs ++ ys) ≡ count p xs + count p ys
count-append p [] ys = omega arith
count-append p (x ∷ xs) ys = omega (arith, count-append p xs ys)

pub count_le {ℓ} : {T : Type ℓ} (p : T → Bool) (xs : List T) → count p xs ≤ length xs
count_le p [] = omega arith
count_le p (x ∷ xs) = let here : bit (p x) ≤ 1 = ground arith in omega (arith, count_le p xs, here)

pub All-both {ℓ κ} :
    {T : Type ℓ} (P : T → Type κ) (xs ys : List T) → All P xs → All P ys → All P (xs ++ ys)
All-both P [] ys h k = k
All-both P (x ∷ xs) ys (h, hs) k = (h, All-both P xs ys hs k)

-- A property of all elements is one that none fails.
abbrev pub fails {ℓ} : {T : Type ℓ} → (T → Bool) → T → Bool
fails q t = not (q t)

pub fails-All {ℓ} :
    {T : Type ℓ} (q : T → Bool) (xs : List T) → All (λ t. q t ≡ true) xs → count (fails q) xs ≡ 0
fails-All q [] h = refl
fails-All q (x ∷ xs) (h, hs) = ground (arith, h, fails-All q xs hs)

pub All-fails {ℓ} :
    {T : Type ℓ} (q : T → Bool) (xs : List T) → count (fails q) xs ≡ 0 → All (λ t. q t ≡ true) xs
All-fails q [] h = tt
All-fails q (x ∷ xs) h = elim (Bool-cases (q x)) [
  | inl e ↦ (e, All-fails q xs (ground (arith, e, h)))
  | inr e ↦ absurd (ground (arith, e, h))
]

pub count-all {ℓ} : {T : Type ℓ} (xs : List T) → count (λ t. true) xs ≡ length xs
count-all [] = refl
count-all (x ∷ xs) = omega (arith, count-all xs)

get_or-set_same {ℓ} :
    {T : Type ℓ} (xs : List T) (i j : ℕ) (d : T)
    → get_or (set xs i (get_or xs j d)) j d ≡ get_or xs j d
get_or-set_same [] i j d = refl
get_or-set_same (x ∷ xs) zero zero d = refl
get_or-set_same (x ∷ xs) zero (suc j) d = refl
get_or-set_same (x ∷ xs) (suc i) zero d = refl
get_or-set_same (x ∷ xs) (suc i) (suc j) d = get_or-set_same xs i j d

module _ {ℓ} {T : Type ℓ} (compare : T → T → Bool) (nothing : T) (p : T → Bool) where
  abbrev pub Same : List T → List T → Type 0
  Same xs ys = (count p xs ≡ count p ys) × (length xs ≡ length ys)

  count-swap :
      (array : List T) (i j : ℕ)
      → i < length array
      → j < length array
      → Same (swap compare nothing array i j) array
  unfolding swap
  count-swap array i j h k = (
    omega (
      arith,
      count-set p array i (get_or array j nothing) nothing h,
      count-set p (set array i (get_or array j nothing)) j (get_or array i nothing) nothing
          (omega (arith, length-set array i (get_or array j nothing))),
      ap (λ x. bit (p x)) (get_or-set_same array i j nothing),
    ),
    length-set (set array i (get_or array j nothing)) j (get_or array i nothing)
        ∙ length-set array i (get_or array j nothing),
  )

  Same-swap :
      (xs : List T) (len : ℕ) (array : List T) (i j : ℕ)
      → len ≤ length array
      → i < len
      → j < len
      → Same array xs
      → Same (swap compare nothing array i j) xs
  Same-swap xs len array i j l h k s =
      let t = count-swap array i j (omega arith) (omega arith) in (t.0 ∙ s.0, t.1 ∙ s.1)

  pub heap_again-Same :
      (len i : ℕ) (array : List T)
      → len ≤ length array
      → Same (heap_again compare nothing array i len) array
  heap_again-Same len i array l =
      (heap_again_ind compare nothing (λ a. Same a array) len (Same-swap array len) i array
        (l, (refl, refl))).1

  pub heap_sort-Same :
      (len : ℕ) (array : List T)
      → len ≤ length array
      → Same (heap_sort compare nothing array len) array
  heap_sort-Same len array l =
      (heap_sort_ind compare nothing (λ a. Same a array) len (Same-swap array len) array
        (l, (refl, refl))).1
