-- ===== src/Ring/Slots.antt =====
-- The entries of a ring from a node on.
use mosito.Base.{
  ℕ, zero, suc, ◌+◌, ◌-◌, ◌≤◌, ◌≡◌, ◌≢◌, refl, ap, ap₂, List, [], ◌∷◌, ◌++◌, length, get_or, set,
  leb, ◌==◌, if◌then◌else◌, arith, get_or-set_ne,
}
use mosito.Ring.{CircleNode, outside}

-- The node behind `i` in a ring of the nodes 0 to `capacity`, and the number of steps from `f` to `r`.
abbrev pub step : ℕ → ℕ → ℕ
step capacity i = if i == capacity then 0 else suc i

abbrev pub steps : ℕ → ℕ → ℕ → ℕ
steps capacity f r = if leb f r then r - f else r + suc capacity - f

pub steps-step :
    (capacity f r n : ℕ)
    → f ≤ capacity
    → r ≤ capacity
    → steps capacity f r ≡ suc n
    → steps capacity (step capacity f) r ≡ n
steps-step capacity f r n h k e = ground (arith, h, k, e)

pub step-bound : (capacity i : ℕ) → i ≤ capacity → step capacity i ≤ capacity
step-bound capacity i h = ground (arith, h)

module _ {ℓ} {T : Type ℓ} (null : T) where
  abbrev pub entry : List (CircleNode null) → ℕ → T
  entry nodes i = (get_or nodes i (outside null)).node

  abbrev pub slots : ℕ → List (CircleNode null) → ℕ → ℕ → List T
  slots capacity nodes f zero = []
  slots capacity nodes f (suc n) = entry nodes f ∷ slots capacity nodes (step capacity f) n

  pub length-slots :
      (capacity : ℕ) (nodes : List (CircleNode null)) (f n : ℕ)
      → length (slots capacity nodes f n) ≡ n
  length-slots capacity nodes f zero = refl
  length-slots capacity nodes f (suc n) = ap suc (length-slots capacity nodes (step capacity f) n)

  -- A write to the rear leaves the entries before it.
  pub slots-set :
      (capacity : ℕ) (nodes : List (CircleNode null)) (v : CircleNode null) (f r n : ℕ)
      → f ≤ capacity
      → r ≤ capacity
      → steps capacity f r ≡ n
      → slots capacity (set nodes r v) f n ≡ slots capacity nodes f n
  slots-set capacity nodes v f r zero h k e = refl
  slots-set capacity nodes v f r (suc n) h k e =
      ap₂ ◌∷◌ (ap (λ m. m.node) (get_or-set_ne nodes r f v (outside null) apart)) (
        slots-set capacity nodes v (step capacity f) r n (step-bound capacity f h) k
          (steps-step capacity f r n h k e))
    where
      apart : r ≢ f
      apart = ground (arith, e)

  pub slots_append :
      (capacity : ℕ) (nodes : List (CircleNode null)) (f r n : ℕ)
      → f ≤ capacity
      → r ≤ capacity
      → steps capacity f r ≡ n
      → slots capacity nodes f (suc n) ≡ slots capacity nodes f n ++ entry nodes r ∷ []
  slots_append capacity nodes f r zero h k e = ap (λ i. entry nodes i ∷ []) same
    where
      same : f ≡ r
      same = ground (arith, e, h, k)
  slots_append capacity nodes f r (suc n) h k e = ap (◌∷◌ (entry nodes f)) (
      slots_append capacity nodes (step capacity f) r n (step-bound capacity f h) k
        (steps-step capacity f r n h k e))
