-- ===== src/Sort/Parts.antt =====
-- src/physical/m_sort.cpp: the sorted ranges one after the other are ascending, and hold every tuple.
use mosito.Base.{
  ℕ, zero, suc, ◌+◌, ◌<◌, ◌≡◌, refl, ap, sym, subst, ◌∙◌, Bool, true, List, [], ◌∷◌, map, concat,
  length, take, get_or, ltb, leb, All-map, ◌==◌, if◌then◌else◌, arith, Bool-cases, inl, inr, All,
}
use mathlib.Core.List.{reverse}
use mosito.Configuration.{cpu_core}
use mosito.Heap.Same.{bit, count, count-append, fails, fails-All, All-fails, All-both}
use mosito.Sort.{key}
use mosito.Sort.Ranges.{in_range, all_le, IsBelow, keep, first_above}
use mosito.Sort.Remaining.{Tuples}
use mosito.Sort.Ascending.{
  Distinct, IsAscending, IsStableSort, All-keep, keep-Distinct, count-reverse, IsAscending-append,
  reverse-IsAscending,
}

-- Range `i` and the later ones before sorting.
unfoldable pub Parts : List ℕ → Tuples → ℕ → List Tuples → Type 0
Parts bs ts i [] = Unit
Parts bs ts i (r ∷ rs) = (r ≡ keep (λ t. in_range bs i (key t)) ts) × Parts bs ts (suc i) rs

in_range-above : (bs : List ℕ) (i v : ℕ) → in_range bs i v ≡ true → ltb v (get_or bs i 0) ≡ true
in_range-above bs i v h = ground (arith, h)

all_le_next :
    (bs : List ℕ) (i v : ℕ)
    → i < length bs
    → all_le (take (suc i) bs) v ≡ true
    → (leb (get_or bs i 0) v ≡ true) × (all_le (take i bs) v ≡ true)
all_le_next [] i v n h = absurd (omega arith)
all_le_next (b ∷ bs) zero v n h = (ground (arith, h), refl)
all_le_next (b ∷ bs) (suc i) v n h =
    let (a, l) = all_le_next bs i v (omega arith) (ground (arith, h)) in (a, ground (arith, h, l))

module _ (stable_sort : Tuples → Tuples) (c : IsStableSort stable_sort) (bs : List ℕ) (ts : Tuples)
    (d : Distinct ts) where
  unfoldable pub sorted : List Tuples → List Tuples
  sorted rs = map (λ range. reverse (stable_sort range)) rs

  same_range :
      (i : ℕ) (p : List ℕ → Bool)
      → count p (reverse (stable_sort (keep (λ t. in_range bs i (key t)) ts)))
        ≡ count p (keep (λ t. in_range bs i (key t)) ts)
  same_range i p = count-reverse p _ ∙ c.same _ p (keep-Distinct (λ t. in_range bs i (key t)) ts d)

  range-All :
      (i : ℕ) (q : List ℕ → Bool)
      → ((t : List ℕ) → in_range bs i (key t) ≡ true → q t ≡ true)
      → All (λ t. q t ≡ true) (reverse (stable_sort (keep (λ t. in_range bs i (key t)) ts)))
  range-All i q f = All-fails q _ (
      same_range i (fails q)
      ∙ fails-All q _ (All-map _ f (All-keep (λ t. in_range bs i (key t)) ts)))

  later-All :
      (i : ℕ) (rs : List Tuples)
      → i + length rs ≡ length bs
      → Parts bs ts i rs
      → All (λ t. all_le (take i bs) (key t) ≡ true) (concat (sorted rs))
  unfolding sorted Parts
  later-All i [] n h = tt
  later-All i (r ∷ rs) n (e, h) =
      All-both _ (reverse (stable_sort r)) (concat (sorted rs))
        (subst (λ x. All (λ t. all_le (take i bs) (key t) ≡ true) (reverse (stable_sort x))) (sym e)
          (range-All i (λ t. all_le (take i bs) (key t)) (λ t f. ground (arith, f))))
        (All-map (concat (sorted rs)) (λ t f. (all_le_next bs i (key t) (omega (arith, n)) f).1)
          (later-All (suc i) rs (omega (arith, n)) h))

  pub ranges-IsAscending :
      (i : ℕ) (rs : List Tuples)
      → i + length rs ≡ length bs
      → Parts bs ts i rs
      → IsAscending (concat (sorted rs))
  unfolding sorted Parts
  ranges-IsAscending i [] n h = tt
  ranges-IsAscending i (r ∷ rs) n (e, h) =
      let k = keep-Distinct (λ t. in_range bs i (key t)) ts d in
      IsAscending-append (get_or bs i 0) (reverse (stable_sort r)) (concat (sorted rs))
        (reverse-IsAscending (stable_sort r) (c.ordered r (subst Distinct (sym e) k)))
        (subst (λ x. All (λ t. ltb (key t) (get_or bs i 0) ≡ true) (reverse (stable_sort x)))
          (sym e)
          (range-All i (λ t. ltb (key t) (get_or bs i 0)) (λ t f. in_range-above bs i (key t) f)))
        (ranges-IsAscending (suc i) rs (omega (arith, n)) h)
        (All-map (concat (sorted rs)) (λ t f. (all_le_next bs i (key t) (omega (arith, n)) f).0)
          (later-All (suc i) rs (omega (arith, n)) h))

  -- The tuples of `n` ranges from range `i` on that have a property.
  kept : (List ℕ → Bool) → ℕ → ℕ → ℕ
  kept p i zero = 0
  kept p i (suc n) = count p (keep (λ t. in_range bs i (key t)) ts) + kept p (suc i) n

  count-sorted :
      (p : List ℕ → Bool) (i : ℕ) (rs : List Tuples)
      → Parts bs ts i rs
      → count p (concat (sorted rs)) ≡ kept p i (length rs)
  unfolding sorted Parts kept
  count-sorted p i [] h = refl
  count-sorted p i (r ∷ rs) (e, h) =
      let here : count p (reverse (stable_sort r))
          ≡ count p (keep (λ t. in_range bs i (key t)) ts) =
        ap (λ x. count p (reverse (stable_sort x))) e ∙ same_range i p in
      omega (
        arith,
        here,
        count-sorted p (suc i) rs h,
        count-append p (reverse (stable_sort r)) (concat (sorted rs)),
      )

count-one :
    (p q : List ℕ → Bool) (t : List ℕ) (ts : Tuples)
    → count p (keep q (t ∷ ts)) ≡ (if q t then bit (p t) else 0) + count p (keep q ts)
count-one p q t ts = elim (Bool-cases (q t)) [ inl e ↦ rw e refl | inr e ↦ rw e (omega arith) ]

-- Of four tests exactly one holds.
one_of_four :
    (j n : ℕ) (b c d e : Bool)
    → j < 4
    → b ≡ (0 == j)
    → c ≡ (1 == j)
    → d ≡ (2 == j)
    → e ≡ (3 == j)
    → (if b then n else 0) + ((if c then n else 0) + ((if d then n else 0) + (if e then n else 0)))
      ≡ n
one_of_four j n b c d e h p q r s = ground (arith, h, p, q, r, s)

-- Every tuple is in one of the four ranges.
four_ranges :
    (bs : List ℕ) (p : List ℕ → Bool) (ts : Tuples)
    → length bs ≡ cpu_core
    → All (λ t. IsBelow bs (key t)) ts
    → count p (keep (λ t. in_range bs 0 (key t)) ts)
        + (count p (keep (λ t. in_range bs 1 (key t)) ts)
            + (count p (keep (λ t. in_range bs 2 (key t)) ts)
                + (count p (keep (λ t. in_range bs 3 (key t)) ts) + 0)))
      ≡ count p ts
four_ranges bs p [] n h = refl
four_ranges bs p (t ∷ ts) n (h, hs) =
    let (j, inside, found, only) = first_above bs 0 (key t) h in
    omega (
      arith,
      one_of_four j (bit (p t)) _ _ _ _ (omega (arith, n, inside)) (only 0) (only 1) (only 2)
          (only 3),
      four_ranges bs p ts n hs,
      count-one p (λ t. in_range bs 0 (key t)) t ts,
      count-one p (λ t. in_range bs 1 (key t)) t ts,
      count-one p (λ t. in_range bs 2 (key t)) t ts,
      count-one p (λ t. in_range bs 3 (key t)) t ts,
    )

pub Parts-placed :
    (bs : List ℕ) (ts : Tuples) (i : ℕ) (rs : List Tuples)
    → ((k : ℕ) → get_or rs k [] ≡ keep (λ t. in_range bs (i + k) (key t)) ts)
    → Parts bs ts i rs
unfolding Parts
Parts-placed bs ts i [] h = tt
Parts-placed bs ts i (r ∷ rs) h =
    let zero_more : i + 0 ≡ i = omega arith in
    let next =
      λ (k : ℕ). h (suc k) ∙ ap (λ n. keep (λ t. in_range bs n (key t)) ts) (omega arith) in
    (
      h 0 ∙ ap (λ n. keep (λ t. in_range bs n (key t)) ts) zero_more,
      Parts-placed bs ts (suc i) rs next,
    )

-- The tuples of the ranges that `prelude` leaves.
pub four :
    (stable_sort : Tuples → Tuples) (c : IsStableSort stable_sort) (bs : List ℕ) (ts : Tuples)
    (d : Distinct ts) (rs : List Tuples) (p : List ℕ → Bool)
    → length bs ≡ cpu_core
    → length rs ≡ cpu_core
    → All (λ t. IsBelow bs (key t)) ts
    → Parts bs ts 0 rs
    → count p (concat (map (λ range. reverse (stable_sort range)) rs)) ≡ count p ts
unfolding sorted kept
four stable_sort c bs ts d rs p n m h parts =
    count-sorted stable_sort c bs ts d p 0 rs parts
    ∙ ap (kept stable_sort c bs ts d p 0) m
    ∙ four_ranges bs p ts n h
