-- ===== src/Buffer/Range.antt =====
-- `Block::compare_start_end`: which range of an increasing list of bounds a block belongs to.
use mosito.Base.{
  ℕ, suc, ◌+◌, ◌≤◌, ◌<◌, ◌≡◌, ◌⊎◌, inl, inr, List, [], ◌∷◌, length, take, get_or, arith, Option,
  none, some, ltb, Bool-cases, All, refl, ltb→lt, ltb→le, ap, ◌∙◌,
}
use mosito.Buffer.{compare_from, Placement, range}

-- The bound at `j` is the first one above `last`.
abbrev pub IsFirstAbove : ℕ → List ℕ → ℕ → Type 0
IsFirstAbove last bs j = (j < length bs) × (last < get_or bs j 0) × All (λ b. b ≤ last) (take j bs)

abbrev pub Placed : ℕ → List ℕ → ℕ → Option Placement → Type 0
Placed last bs i r =
    ((r ≡ none) × All (λ b. b ≤ last) bs)
    ⊎ ((j : ℕ) × (r ≡ some (range (i + j))) × IsFirstAbove last bs j)

-- A block whose keys do not fall is placed by its last key alone: in the range of the first bound
-- above that key, or, when no bound is above it, nowhere: the result is then the uninitialised one.
-- The answer -1 for a block across a bound is never given.
pub compare_from-Placed :
    (start last i : ℕ) (bs : List ℕ)
    → start ≤ last
    → Placed last bs i (compare_from start last i bs)
unfolding compare_from
compare_from-Placed start last i [] h = inl (refl, tt)
compare_from-Placed start last i (b ∷ bs) h = elim (Bool-cases (ltb last b)) [
  | inl above ↦ inr (0, ground (arith, above), (omega arith, ltb→lt _ _ above, tt))
  | inr below ↦
      rw (skip (ltb→le _ _ below))
        (later (ltb→le _ _ below) (compare_from-Placed start last (i + 1) bs h))
]
  where
    skip : b ≤ last → compare_from start last i (b ∷ bs) ≡ compare_from start last (i + 1) bs
    skip below = ground (arith, below)

    later :
        b ≤ last
        → Placed last bs (i + 1) (compare_from start last (i + 1) bs)
        → Placed last (b ∷ bs) i (compare_from start last (i + 1) bs)
    later below (inl (e, all)) = inl (e, (below, all))
    later below (inr (j, e, f)) =
        inr (
          suc j,
          e ∙ ap (λ k. some (range k)) (omega arith),
          (omega (arith, f.0), f.1, (below, f.2)),
        )
