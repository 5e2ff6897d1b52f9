-- ===== src/Heap/Window.antt =====
-- Sifting the first `len` tuples: a bound of all of them stays one, their number with any property
-- stays, and the other tuples are not touched.
use mosito.Base.{
  ℕ, zero, suc, ◌+◌, ◌≤◌, ◌<◌, ◌≡◌, refl, ap, sym, ◌∙◌, Bool, true, List, [], ◌∷◌, get_or, set,
  length, take, drop, arith, length-set, get_or-set_ne, get_or-set_self, inl, inr,
}
use mosito.Heap.{swap, heap_again, heap_sort}
use mosito.Heap.Rounds.{heap_again_ind, heap_sort_ind}
use mosito.Heap.Sift.{eq_cases}
use mosito.Heap.Same.{count, heap_again-Same, heap_sort-Same}

drop-set {ℓ} :
    {A : Type ℓ} (n : ℕ) (xs : List A) (i : ℕ) (v : A) → i < n → drop n (set xs i v) ≡ drop n xs
drop-set zero xs i v h = absurd (omega arith)
drop-set (suc n) [] i v h = refl
drop-set (suc n) (x ∷ xs) zero v h = refl
drop-set (suc n) (x ∷ xs) (suc i) v h = drop-set n xs i v (omega arith)

pub count_split {ℓ} :
    {A : Type ℓ} (p : A → Bool) (n : ℕ) (xs : List A)
    → count p xs ≡ count p (take n xs) + count p (drop n xs)
count_split p zero xs = omega arith
count_split p (suc n) [] = refl
count_split p (suc n) (x ∷ xs) = omega (arith, count_split p n xs)

module _ {ℓ} {T : Type ℓ} (compare : T → T → Bool) (nothing : T) where
  abbrev at : List T → ℕ → T
  at array i = get_or array i nothing

  drop-swap :
      (len : ℕ) (a : List T) (i j : ℕ)
      → i < len
      → j < len
      → drop len (swap compare nothing a i j) ≡ drop len a
  unfolding swap
  drop-swap len a i j h k =
      drop-set len (set a i (at a j)) j (at a i) k ∙ drop-set len a i (at a j) h

  pub drop-heap_again :
      (len i : ℕ) (array : List T)
      → len ≤ length array
      → drop len (heap_again compare nothing array i len) ≡ drop len array
  drop-heap_again len i array l =
      (heap_again_ind compare nothing (λ a. drop len a ≡ drop len array) len
        (λ a i j m h k e. drop-swap len a i j h k ∙ e) i array (l, refl)).1

  pub count-take-heap_again :
      (p : T → Bool) (len i : ℕ) (array : List T)
      → len ≤ length array
      → count p (take len (heap_again compare nothing array i len)) ≡ count p (take len array)
  count-take-heap_again p len i array l =
      let again = heap_again compare nothing array i len in
      omega (
        arith,
        count_split p len array,
        count_split p len again,
        (heap_again-Same compare nothing p len i array l).0,
        ap (count p) (drop-heap_again len i array l),
      )

  -- `x` is in order with the first `len` tuples.
  abbrev pub IsBound : T → ℕ → List T → Type 0
  IsBound x len array = (c : ℕ) → c < len → compare x (at array c) ≡ true

  pub set-IsBound :
      (x : T) (len : ℕ) (a : List T) (i : ℕ) (v : T)
      → i < length a
      → compare x v ≡ true
      → IsBound x len a
      → IsBound x len (set a i v)
  set-IsBound x len a i v l e b c m = elim (eq_cases i c) [
    | inl p ↦
        ap (compare x) (ap (λ k. at (set a i v) k) (sym p) ∙ get_or-set_self a i v nothing l) ∙ e
    | inr n ↦ ap (compare x) (get_or-set_ne a i c v nothing n) ∙ b c m
  ]

  IsBound-swap :
      (x : T) (len : ℕ) (a : List T) (i j : ℕ)
      → len ≤ length a
      → i < len
      → j < len
      → IsBound x len a
      → IsBound x len (swap compare nothing a i j)
  unfolding swap
  IsBound-swap x len a i j l h k b =
      set-IsBound x len (set a i (at a j)) j (at a i) (omega (arith, length-set a i (at a j)))
        (b i h) (set-IsBound x len a i (at a j) (omega arith) (b j k) b)

  pub heap_again-IsBound :
      (x : T) (len i : ℕ) (array : List T)
      → len ≤ length array
      → IsBound x len array
      → IsBound x len (heap_again compare nothing array i len)
  heap_again-IsBound x len i array l b =
      (heap_again_ind compare nothing (IsBound x len) len (IsBound-swap x len) i array (l, b)).1

  drop-heap_sort :
      (len : ℕ) (array : List T)
      → len ≤ length array
      → drop len (heap_sort compare nothing array len) ≡ drop len array
  drop-heap_sort len array l =
      (heap_sort_ind compare nothing (λ a. drop len a ≡ drop len array) len
        (λ a i j m h k e. drop-swap len a i j h k ∙ e) array (l, refl)).1

  pub count-take-heap_sort :
      (p : T → Bool) (len : ℕ) (array : List T)
      → len ≤ length array
      → count p (take len (heap_sort compare nothing array len)) ≡ count p (take len array)
  count-take-heap_sort p len array l =
      let sorted = heap_sort compare nothing array len in
      omega (
        arith,
        count_split p len array,
        count_split p len sorted,
        (heap_sort-Same compare nothing p len array l).0,
        ap (count p) (drop-heap_sort len array l),
      )
