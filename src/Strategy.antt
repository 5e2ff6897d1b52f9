-- ===== src/Strategy.antt =====
-- src/analysis/m_par_strategy.h and m_par_strategy.cpp: cutting N histogram ranges into P partitions.
-- The arrays are lists of any length and P is a parameter, so that the theorems are not about the one
-- input of the constructor. The table `matrix[j][k]` is a function of `k` and `j`.
pub mod Scan
pub mod Best
use mosito.Base.{ℕ, zero, suc, ◌+◌, ◌-◌, ◌*◌, ◌/◌, List, [], ◌∷◌, take, drop, ltb, if◌then◌else◌}

abbrev pub int_max : ℕ
int_max = 2147483647

unfoldable pub sum : List ℕ → ℕ
sum [] = 0
sum (x ∷ xs) = x + sum xs

-- `(x-y)*(x-y)` on `int`.
unfoldable pub square_apart : ℕ → ℕ → ℕ
square_apart x y = ((x - y) + (y - x)) * ((x - y) + (y - x))

pub record ParStrategy : Type 0 where
  pub a_array : List ℕ
  pub b_array : List ℕ
  pub a_expect : ℕ
  pub b_expect : ℕ

unfoldable pub create_par_strategy : ℕ → List ℕ → List ℕ → ParStrategy
unfolding sum
create_par_strategy p a b = record {
  a_array = a;
  b_array = b;
  a_expect = sum a / p;
  b_expect = sum b / p;
}

unfoldable pub variance : ParStrategy → ℕ → ℕ → ℕ
unfolding sum square_apart
variance s m n =
    square_apart (sum (take (n - m) (drop m s.a_array))) s.a_expect
    + square_apart (sum (take (n - m) (drop m s.b_array))) s.b_expect

-- The innermost loop of `eval`, over `l`: the least sum so far, and where it was found.
unfoldable pub scan : (ℕ → ℕ) → (ℕ → ℕ) → ℕ → ℕ → ℕ → ℕ → ℕ × ℕ
scan previous cost zero l least cut = (least, cut)
scan previous cost (suc n) l least cut =
    let sum = previous l + cost l in
    scan previous cost n (suc l) (if ltb sum least then sum else least)
      (if ltb sum least then l else cut)

-- Column `k` of `matrix` and of `new_state`, for the first `j` ranges. The loops start at 2, and
-- what they do not write is 0.
unfoldable pub eval : ParStrategy → ℕ → ℕ → ℕ × ℕ
unfolding variance scan
eval s zero j = (0, 0)
eval s (suc zero) j = if ltb 0 j then (variance s 0 j, 0) else (0, 0)
eval s (suc (suc k)) j =
    if ltb j 2
    then (0, 0)
    else scan (λ l. (eval s (suc k) l).0) (λ l. variance s l j) (j - suc k) (suc k) int_max 0
