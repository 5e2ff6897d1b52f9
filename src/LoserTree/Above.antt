-- ===== src/LoserTree/Above.antt =====
-- Which nodes of the tree are above which.
use mosito.Base.{ℕ, zero, suc, ◌+◌, ◌*◌, ◌/◌, ◌≤◌, ◌<◌, ◌≡◌, ◌≢◌, ◌⊎◌, inl, inr, arith}
use mosito.Heap.Sift.{eq_cases}

-- Node `v` is `x` or an ancestor of it.
pub data Above (v : ℕ) : ℕ → Type 0 where
  self : (x : ℕ) → x ≡ v → Above v x
  up : (x : ℕ) → 0 < x → Above v (x / 2) → Above v x

pub Above_le : (v x : ℕ) → Above v x → v ≤ x
Above_le v x (self _ e) = omega (arith, e)
Above_le v x (up _ h a) = omega (arith, Above_le v (x / 2) a)

pub Above_left : (v x : ℕ) → 0 < v → Above (2 * v) x → Above v x
Above_left v x h (self _ e) =
    Above.up x (omega (arith, h, e)) (Above.self (x / 2) (omega (arith, e)))
Above_left v x h (up _ p a) = Above.up x p (Above_left v (x / 2) h a)

pub Above_right : (v x : ℕ) → Above (2 * v + 1) x → Above v x
Above_right v x (self _ e) = Above.up x (omega (arith, e)) (Above.self (x / 2) (omega (arith, e)))
Above_right v x (up _ p a) = Above.up x p (Above_right v (x / 2) a)

-- No node is below two nodes side by side.
pub apart : (v x : ℕ) → 1 < v → Above v x → Above (v + 1) x → ⊥
apart v x h (self _ e) b = omega (arith, e, Above_le (v + 1) x b)
apart v x h (up _ p a) (self _ e) = omega (arith, e, h, Above_le v (x / 2) a)
apart v x h (up _ p a) (up _ q b) = apart v (x / 2) h a b

pub below : (v x : ℕ) → Above v x → x ≢ v → Above (2 * v) x ⊎ Above (2 * v + 1) x
below v x (self _ e) n = absurd (n e)
below v x (up _ p a) n = elim (eq_cases (x / 2) v) [
  | inl e ↦ halves e (eq_cases x (2 * v))
  | inr e ↦ elim (below v (x / 2) a e) [
    | inl l ↦ inl (Above.up x p l)
    | inr r ↦ inr (Above.up x p r)
  ]
]
  where
    halves : x / 2 ≡ v → (x ≡ 2 * v) ⊎ (x ≢ 2 * v) → Above (2 * v) x ⊎ Above (2 * v + 1) x
    halves e (inl f) = inl (Above.self x f)
    halves e (inr f) = inr (Above.self x (other e f))
      where
        other : x / 2 ≡ v → x ≢ 2 * v → x ≡ 2 * v + 1
        other e f = omega (arith, e, f)

root_from : (fuel x : ℕ) → x ≤ fuel → 0 < x → Above 1 x
root_from zero x h p = absurd (omega arith)
root_from (suc fuel) x h p = elim (eq_cases x 1) [
  | inl e ↦ Above.self x e
  | inr e ↦ Above.up x p (root_from fuel (x / 2) (omega arith) (omega (arith, e, p)))
]

pub root : (x : ℕ) → 0 < x → Above 1 x
root x h = root_from x x (omega arith) h
