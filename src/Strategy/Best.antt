-- ===== src/Strategy/Best.antt =====
-- `eval` finds a best way to cut the ranges.
use mosito.Base.{
  ℕ, zero, suc, ◌+◌, ◌-◌, ◌*◌, ◌≤◌, ◌<◌, ◌≡◌, refl, List, arith, inl, inr, ◌⊎◌, lt→ltb, le→ltb,
}
use mosito.Strategy.{int_max, sum, ParStrategy, create_par_strategy, variance, scan, eval}
use mosito.Strategy.Scan.{Least, scan-Least, variance-le}

-- `c` is the variance of some way to cut the first `j` ranges into `k` parts that are not empty.
abbrev pub IsCut : ParStrategy → ℕ → ℕ → ℕ → Type 0
IsCut s zero j c = ⊥
IsCut s (suc zero) j c = (0 < j) × (c ≡ variance s 0 j)
IsCut s (suc (suc k)) j c =
    (l : ℕ) × (c' : ℕ) × (l < j) × IsCut s (suc k) l c' × (c ≡ c' + variance s l j)

IsCut-le : (s : ParStrategy) (k j c : ℕ) → IsCut s k j c → k ≤ j
IsCut-le s zero j c h = absurd h
IsCut-le s (suc zero) j c h = omega (arith, h.0)
IsCut-le s (suc (suc k)) j c (l, c', h, d, e) = omega (arith, IsCut-le s (suc k) l c' d)

pub record IsBest (s : ParStrategy) (bound k j c : ℕ) : Type 0 where
  pub cut : IsCut s k j c
  pub least : (c' : ℕ) → IsCut s k j c' → c ≤ c'
  pub bounded : c ≤ k * bound

eval_one : (s : ParStrategy) (j : ℕ) → 0 < j → (eval s 1 j).0 ≡ variance s 0 j
unfolding eval
eval_one s j h = rw (lt→ltb 0 j h) refl

eval_more :
    (s : ParStrategy) (k j : ℕ)
    → 2 ≤ j
    → eval s (suc (suc k)) j
      ≡ scan (λ l. (eval s (suc k) l).0) (λ l. variance s l j) (j - suc k) (suc k) int_max 0
unfolding eval
eval_more s k j h = rw (le→ltb j 2 h) refl

-- A round of the outer loop: from the best cuts into one part less.
eval_step :
    (s : ParStrategy) (bound k j : ℕ)
    → ((m n : ℕ) → variance s m n ≤ bound)
    → suc (suc k) ≤ j
    → suc (suc k) * bound < int_max
    → ((l : ℕ) → suc k ≤ l → IsBest s bound (suc k) l (eval s (suc k) l).0)
    → (r : ℕ × ℕ)
    → Least (λ l. (eval s (suc k) l).0) (λ l. variance s l j) (j - suc k) (suc k) int_max 0 r
    → IsBest s bound (suc (suc k)) j r.0
eval_step s bound k j v h m ih r w = found w.found
  where
    least : (c' : ℕ) → IsCut s (suc (suc k)) j c' → r.0 ≤ c'
    least c' (l, c, b, d, e) =
        let g = IsCut-le s (suc k) l c d in
        omega (arith, w.minimal l g (omega arith), (ih l g).least c d)

    small : r.0 ≤ suc (suc k) * bound
    small = grind (
      arith,
      w.minimal (suc k) (omega arith) (omega arith),
      (ih (suc k) (omega arith)).bounded,
      v (suc k) j,
    )

    found :
        ((r.0 ≡ int_max) × (r.1 ≡ 0))
          ⊎ ((suc k ≤ r.1)
              × (r.1 < suc k + (j - suc k))
              × (r.0 ≡ (eval s (suc k) r.1).0 + variance s r.1 j))
        → IsBest s bound (suc (suc k)) j r.0
    found (inl (e, f)) = absurd (omega (arith, small))
    found (inr (a, b, e)) = record {
      cut = (r.1, (eval s (suc k) r.1).0, omega arith, (ih r.1 a).cut, e);
      least = least;
      bounded = small;
    }

eval-IsBest_from :
    (s : ParStrategy) (bound k j : ℕ)
    → ((m n : ℕ) → variance s m n ≤ bound)
    → suc k ≤ j
    → suc k * bound < int_max
    → IsBest s bound (suc k) j (eval s (suc k) j).0
eval-IsBest_from s bound zero j v h m = record {
  cut = (omega arith, eval_one s j (omega arith));
  least = λ c d. omega (arith, d.1, eval_one s j (omega arith));
  bounded = omega (arith, v 0 j, eval_one s j (omega arith));
}
eval-IsBest_from s bound (suc k) j v h m = rw (eval_more s k j (omega arith)) (
    eval_step s bound k j v h m (λ l g. eval-IsBest_from s bound k l v g (grind arith)) _
      (scan-Least _ _ (j - suc k) (suc k) int_max 0))

-- For at least as many ranges `j` as parts `k`, `matrix[j][k]` is the variance of some way to cut the
-- first `j` ranges into `k` parts that are not empty, and no other way has a smaller one; as long as
-- `k` times the squares of the two sums stays below INT_MAX.
pub eval-IsBest :
    (p : ℕ) (a b : List ℕ) (k j : ℕ)
    → 0 < k
    → k ≤ j
    → k * (sum a * sum a + sum b * sum b) < int_max
    → IsBest
        (create_par_strategy p a b)
        (sum a * sum a + sum b * sum b)
        k
        j
        (eval (create_par_strategy p a b) k j).0
eval-IsBest p a b zero j o h m = absurd (omega arith)
eval-IsBest p a b (suc k) j o h m =
    eval-IsBest_from (create_par_strategy p a b) (sum a * sum a + sum b * sum b) k j
      (variance-le p a b) h m
