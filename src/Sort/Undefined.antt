-- ===== src/Sort/Undefined.antt =====
-- When the partition phase reads the missing result of `compare_start_end`.
use mosito.Base.{
  ℕ, zero, suc, ◌+◌, ◌<◌, ◌≡◌, refl, ◌∙◌, ◌⊎◌, inl, inr, false, none, some, List, [], ◌∷◌, ◌++◌,
  concat, length, replicate, get_or, set, ltb, arith, All, Bool-cases,
}
use mosito.Configuration.{cpu_core}
use mosito.Sort.{Sort, key, compare_start_end_from, compare_start_end, distribute, prelude}
use mosito.Sort.Ranges.{IsBelow, first_above}
use mosito.Sort.Remaining.{Tuples}
use mosito.Sort.Sorted.{prelude_lem}

above_cases :
    (bs : List ℕ) (i v : ℕ)
    → IsBelow bs v ⊎ ((IsBelow bs v → ⊥) × (compare_start_end_from i bs v ≡ none))
unfolding compare_start_end_from
above_cases [] i v = inr (λ (k, h, l). absurd (omega arith), refl)
above_cases (b ∷ bs) i v = elim (Bool-cases (ltb v b)) [
  | inl e ↦ inl (0, omega arith, ground (arith, e))
  | inr e ↦ elim (above_cases bs (i + 1) v) [
    | inl (k, h, l) ↦ inl (suc k, omega (arith, h), l)
    | inr (n, f) ↦ inr (not_here e n, rw e f)
  ]
]
  where
    not_here : ltb v b ≡ false → (IsBelow bs v → ⊥) → IsBelow (b ∷ bs) v → ⊥
    not_here e n (zero, h, l) = absurd (ground (arith, e, l))
    not_here e n (suc k, h, l) = n (k, omega (arith, h), l)

-- A tuple of the list whose key no bound is above.
abbrev pub Uncovered : List ℕ → Tuples → Type 0
Uncovered bs ts = (i : ℕ) × (i < length ts) × (IsBelow bs (key (get_or ts i [])) → ⊥)

distribute-none :
    (bs : List ℕ) (ranges : List Tuples) (t : List ℕ) (ts : Tuples)
    → compare_start_end bs (key t) ≡ none
    → distribute bs ranges (t ∷ ts) ≡ none
unfolding distribute
distribute-none bs ranges t ts e = rw (e, distribute) refl

distribute-some :
    (bs : List ℕ) (ranges : List Tuples) (t : List ℕ) (ts : Tuples) (r : ℕ)
    → compare_start_end bs (key t) ≡ some r
    → distribute bs ranges (t ∷ ts) ≡ distribute bs (set ranges r (get_or ranges r [] ++ t ∷ [])) ts
unfolding distribute
distribute-some bs ranges t ts r e = rw (e, distribute) refl

distribute_cases :
    (bs : List ℕ) (ranges : List Tuples) (ts : Tuples)
    → (All (λ t. IsBelow bs (key t)) ts
        × ((rs : List Tuples) × (distribute bs ranges ts ≡ some rs)))
      ⊎ (Uncovered bs ts × (distribute bs ranges ts ≡ none))
unfolding distribute compare_start_end
distribute_cases bs ranges [] = inl (tt, (ranges, refl))
distribute_cases bs ranges (t ∷ ts) = elim (above_cases bs 0 (key t)) [
  | inl h ↦
      let (j, inside, found, only) = first_above bs 0 (key t) h in
      let step = distribute-some bs ranges t ts (0 + j) found in
      elim (distribute_cases bs (set ranges (0 + j) (get_or ranges (0 + j) [] ++ t ∷ [])) ts) [
        | inl (a, (rs, e)) ↦ inl ((h, a), (rs, step ∙ e))
        | inr ((i, k, n), e) ↦ inr ((suc i, omega (arith, k), n), step ∙ e)
      ]
  | inr (n, e) ↦ inr ((0, omega arith, n), distribute-none bs ranges t ts e)
]

-- `prelude` is defined exactly when every key of the child's tuples has a bound above it: in the
-- other case the missing result of `compare_start_end` is used.
pub prelude_cases :
    (stable_sort : Tuples → Tuples) (dist_ranges : List ℕ) (pages : List Tuples)
    → (All (λ t. IsBelow dist_ranges (key t)) (concat pages)
        × ((s : Sort) × (prelude stable_sort dist_ranges pages ≡ some s)))
      ⊎ (Uncovered dist_ranges (concat pages) × (prelude stable_sort dist_ranges pages ≡ none))
unfolding prelude
prelude_cases stable_sort dist_ranges pages =
    elim (distribute_cases dist_ranges (replicate cpu_core []) (concat pages)) [
      | inl (a, (rs, e)) ↦ inl (a, (_, prelude_lem stable_sort dist_ranges pages rs e))
      | inr (u, e) ↦ inr (u, rw (e, prelude) refl)
    ]
