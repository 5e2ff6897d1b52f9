-- ===== src/Strategy/Scan.antt =====
-- The innermost loop finds the least sum; and the variance is bounded by the sums of the arrays.
use mosito.Base.{
  ℕ, zero, suc, ◌+◌, ◌-◌, ◌*◌, ◌/◌, ◌≤◌, ◌<◌, ◌≡◌, refl, List, [], ◌∷◌, take, drop, ltb,
  if◌then◌else◌, arith, ◌⊎◌, inl, inr, Bool-cases, ◌==◌, true, ap, sym, ◌∙◌,
}
use native.Mathlib.Nat.{div-le_self}
use mosito.Strategy.{sum, square_apart, create_par_strategy, variance, scan}

pub record Least (previous cost : ℕ → ℕ) (n l least cut : ℕ) (r : ℕ × ℕ) : Type 0 where
  pub below : r.0 ≤ least
  pub minimal : (i : ℕ) → l ≤ i → i < l + n → r.0 ≤ previous i + cost i
  pub found :
      ((r.0 ≡ least) × (r.1 ≡ cut)) ⊎ ((l ≤ r.1) × (r.1 < l + n) × (r.0 ≡ previous r.1 + cost r.1))

-- What a round keeps of the sum at hand and of the least one before.
pick :
    (x least l cut : ℕ)
    → ((if ltb x least then x else least) ≤ least)
      × ((if ltb x least then x else least) ≤ x)
      × ((((if ltb x least then x else least) ≡ least) × ((if ltb x least then l else cut) ≡ cut))
          ⊎ (((if ltb x least then x else least) ≡ x) × ((if ltb x least then l else cut) ≡ l)))
pick x least l cut = elim (Bool-cases (ltb x least)) [
  | inl e ↦ rw e (ground (arith, e), omega arith, inr (refl, refl))
  | inr e ↦ rw e (omega arith, ground (arith, e), inl (refl, refl))
]

wider :
    (previous cost : ℕ → ℕ) (n l least cut least' cut' : ℕ) (r : ℕ × ℕ)
    → least' ≤ least
    → least' ≤ previous l + cost l
    → ((least' ≡ least) × (cut' ≡ cut)) ⊎ ((least' ≡ previous l + cost l) × (cut' ≡ l))
    → Least previous cost n (suc l) least' cut' r
    → Least previous cost (suc n) l least cut r
wider previous cost n l least cut least' cut' r h k c s = record {
  below = omega (arith, s.below);
  minimal = minimal;
  found = found s.found c;
}
  where
    minimal : (i : ℕ) → l ≤ i → i < l + suc n → r.0 ≤ previous i + cost i
    minimal i g m = elim (Bool-cases (i == l)) [
      | inl e ↦ rw (equal e) (omega (arith, s.below))
      | inr e ↦ s.minimal i (ground (arith, e)) (omega arith)
    ]
      where
        equal : (i == l) ≡ true → i ≡ l
        equal e = ground (arith, e)

    found :
        ((r.0 ≡ least') × (r.1 ≡ cut'))
          ⊎ ((suc l ≤ r.1) × (r.1 < suc l + n) × (r.0 ≡ previous r.1 + cost r.1))
        → ((least' ≡ least) × (cut' ≡ cut)) ⊎ ((least' ≡ previous l + cost l) × (cut' ≡ l))
        → ((r.0 ≡ least) × (r.1 ≡ cut))
          ⊎ ((l ≤ r.1) × (r.1 < l + suc n) × (r.0 ≡ previous r.1 + cost r.1))
    found (inl (e, f)) (inl (g, m)) = inl (e ∙ g, f ∙ m)
    found (inl (e, f)) (inr (g, m)) = inr (
      omega (arith, f, m),
      omega (arith, f, m),
      e ∙ g ∙ ap (λ i. previous i + cost i) (sym (f ∙ m)),
    )
    found (inr (a, b, e)) c = inr (omega arith, omega arith, e)

pub scan-Least :
    (previous cost : ℕ → ℕ) (n l least cut : ℕ)
    → Least previous cost n l least cut (scan previous cost n l least cut)
unfolding scan
scan-Least previous cost zero l least cut = record {
  below = omega arith;
  minimal = λ i h k. absurd (omega arith);
  found = inl (refl, refl);
}
scan-Least previous cost (suc n) l least cut =
    let p = pick (previous l + cost l) least l cut in
    wider previous cost n l least cut _ _ _ p.0 p.1 p.2 (scan-Least previous cost n (suc l) _ _)

sum-take : (n : ℕ) (xs : List ℕ) → sum (take n xs) ≤ sum xs
unfolding sum
sum-take zero xs = omega arith
sum-take (suc n) [] = omega arith
sum-take (suc n) (x ∷ xs) = omega (arith, sum-take n xs)

sum-drop : (n : ℕ) (xs : List ℕ) → sum (drop n xs) ≤ sum xs
unfolding sum
sum-drop zero xs = omega arith
sum-drop (suc n) [] = omega arith
sum-drop (suc n) (x ∷ xs) = omega (arith, sum-drop n xs)

square_apart-le : (x y s : ℕ) → x ≤ s → y ≤ s → square_apart x y ≤ s * s
unfolding square_apart
square_apart-le x y s h k = grind arith

pub variance-le :
    (p : ℕ) (a b : List ℕ) (m n : ℕ)
    → variance (create_par_strategy p a b) m n ≤ sum a * sum a + sum b * sum b
unfolding variance create_par_strategy
variance-le p a b m n = omega (arith, piece a, piece b)
  where
    piece :
        (xs : List ℕ) → square_apart (sum (take (n - m) (drop m xs))) (sum xs / p) ≤ sum xs * sum xs
    piece xs =
        square_apart-le _ _ (sum xs) (omega (arith, sum-take (n - m) (drop m xs), sum-drop m xs))
          (div-le_self (sum xs) p)
