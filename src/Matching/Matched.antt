-- ===== src/Matching/Matched.antt =====
-- Matchings, and why one with a closed set is largest.
use mosito.Base.{
  ℕ, zero, suc, ◌+◌, ◌≤◌, ◌<◌, ◌≡◌, ◌≢◌, refl, ap, sym, ◌∙◌, subst, Bool, true, false, ◌&&◌, List,
  [], ◌∷◌, length, get_or, ltb, leb, ◌==◌, if◌then◌else◌, ◌⊎◌, inl, inr, arith, Bool-cases,
}
use mosito.Heap.Same.{bit, count}
use mosito.Matching.Closed.{Edges, IsClosed}

abbrev pub in_range : ℕ → ℕ → Bool
in_range n x = ltb 0 x && leb x n

-- The number of right nodes that are linked to a left one.
abbrev pub matched : ℕ → List ℕ → ℕ
matched n link1 = count (in_range n) link1

-- Links of the right nodes 1 to `n` to left nodes, 0 for none: every link is an edge, and no left node
-- is linked twice.
pub record IsMatching (map : ℕ → ℕ → Bool) (n : ℕ) (link1 : List ℕ) : Type 0 where
  pub size : length link1 ≡ n + 1
  pub unused : get_or link1 0 0 ≡ 0
  pub inside : (j : ℕ) → get_or link1 j 0 ≤ n
  pub edges : (j : ℕ) → get_or link1 j 0 ≢ 0 → map (get_or link1 j 0) j ≡ true
  pub once : (z : ℕ) → 0 < z → count (λ x. x == z) link1 ≤ 1

in_range-suc :
    (m : ℕ) (xs : List ℕ)
    → count (in_range (suc m)) xs ≡ count (in_range m) xs + count (λ x. x == suc m) xs
in_range-suc m [] = refl
in_range-suc m (x ∷ xs) =
    let here : bit (in_range (suc m) x) ≡ bit (in_range m x) + bit (x == suc m) = ground arith in
    omega (arith, in_range-suc m xs, here)

in_range-zero : (xs : List ℕ) → count (in_range 0) xs ≡ 0
in_range-zero [] = refl
in_range-zero (x ∷ xs) =
    let here : bit (in_range 0 x) ≡ 0 = ground arith in omega (arith, in_range-zero xs, here)

values_le :
    (m : ℕ) (xs ys : List ℕ)
    → ((z : ℕ) → 0 < z → z ≤ m → count (λ x. x == z) xs ≤ count (λ x. x == z) ys)
    → count (in_range m) xs ≤ count (in_range m) ys
values_le zero xs ys h = omega (arith, in_range-zero xs)
values_le (suc m) xs ys h = omega (
  arith,
  in_range-suc m xs,
  in_range-suc m ys,
  values_le m xs ys (λ z p q. h z p (omega arith)),
  h (suc m) (omega arith) (omega arith),
)

-- The links of the nodes outside a set.
away : (ℕ → Bool) → List ℕ → List ℕ
away set [] = []
away set (x ∷ xs) = (if set 0 then 0 else x) ∷ away (λ j. set (suc j)) xs

places : (ℕ → Bool) → List ℕ → ℕ
places set [] = 0
places set (x ∷ xs) = bit (set 0) + places (λ j. set (suc j)) xs

places_eq :
    (set : ℕ → Bool) (xs ys : List ℕ) → length xs ≡ length ys → places set xs ≡ places set ys
unfolding places
places_eq set [] [] e = refl
places_eq set [] (y ∷ ys) e = absurd (omega arith)
places_eq set (x ∷ xs) [] e = absurd (omega arith)
places_eq set (x ∷ xs) (y ∷ ys) e = omega (arith, places_eq (λ j. set (suc j)) xs ys (omega arith))

split_le :
    (p : ℕ → Bool) (set : ℕ → Bool) (xs : List ℕ)
    → count p xs ≤ count p (away set xs) + places set xs
unfolding away places
split_le p set [] = omega arith
split_le p set (x ∷ xs) =
    let here : bit (p x) ≤ bit (p (if set 0 then 0 else x)) + bit (set 0) = ground arith in
    omega (arith, split_le p (λ j. set (suc j)) xs, here)

split_eq :
    (p : ℕ → Bool) (set : ℕ → Bool) (xs : List ℕ)
    → p 0 ≡ false
    → ((j : ℕ) → set j ≡ true → p (get_or xs j 0) ≡ true)
    → count p xs ≡ count p (away set xs) + places set xs
unfolding away places
split_eq p set [] z h = omega arith
split_eq p set (x ∷ xs) z h =
    let first = h 0 in
    let here : bit (p x) ≡ bit (p (if set 0 then 0 else x)) + bit (set 0) =
      elim (Bool-cases (set 0)) [ inl e ↦ rw (e, z, first e) refl | inr e ↦ rw e (omega arith) ] in
    omega (arith, split_eq p (λ j. set (suc j)) xs z (λ j. h (suc j)), here)

away_le :
    (z : ℕ) (set : ℕ → Bool) (xs : List ℕ)
    → 0 < z
    → count (λ x. x == z) (away set xs) ≤ count (λ x. x == z) xs
unfolding away
away_le z set [] p = omega arith
away_le z set (x ∷ xs) p =
    let here : bit ((if set 0 then 0 else x) == z) ≤ bit (x == z) = ground arith in
    omega (arith, away_le z (λ j. set (suc j)) xs p, here)

away_whole :
    (z : ℕ) (set : ℕ → Bool) (xs : List ℕ)
    → ((j : ℕ) → get_or xs j 0 ≡ z → set j ≡ true → ⊥)
    → 0 < z
    → count (λ x. x == z) (away set xs) ≡ count (λ x. x == z) xs
unfolding away
away_whole z set [] h p = refl
away_whole z set (x ∷ xs) h p =
    let first = h 0 in
    let here : bit ((if set 0 then 0 else x) == z) ≡ bit (x == z) = elim (Bool-cases (set 0)) [
      | inr e ↦ rw e refl
      | inl e ↦ elim (Bool-cases (x == z)) [
        | inl f ↦ absurd (first (ground arith) e)
        | inr f ↦ rw (e, f) (ground arith)
      ]
    ] in
    omega (arith, away_whole z (λ j. set (suc j)) xs (λ j. h (suc j)) p, here)

-- Where a value that is there outside the set stands.
away_place :
    (z : ℕ) (set : ℕ → Bool) (xs : List ℕ)
    → 0 < z
    → 0 < count (λ x. x == z) (away set xs)
    → (j : ℕ) × (j < length xs) × (get_or xs j 0 ≡ z) × (set j ≡ false)
unfolding away
away_place z set [] p h = absurd (omega arith)
away_place z set (x ∷ xs) p h = elim (Bool-cases ((if set 0 then 0 else x) == z)) [
  | inl e ↦ (0, omega arith, ground arith, ground arith)
  | inr e ↦
      let r = away_place z (λ j. set (suc j)) xs p (omega (arith, ap bit e)) in
      (suc r.0, omega (arith, r.1), r.2, r.3)
]

module _ (map : ℕ → ℕ → Bool) (n : ℕ) where
  -- A left node is linked once, or its edges end in the set.
  abbrev pub Settled : (ℕ → Bool) → List ℕ → ℕ → Type 0
  Settled set link1 z = (count (λ x. x == z) link1 ≡ 1) ⊎ Edges map n 1 set z

  value_le :
      (set : ℕ → Bool) (xs ys : List ℕ)
      → IsClosed map n set xs
      → ((z : ℕ) → 0 < z → z ≤ n → Settled set xs z)
      → IsMatching map n ys
      → (z : ℕ) → 0 < z
      → z ≤ n
      → count (λ x. x == z) (away set ys) ≤ count (λ x. x == z) (away set xs)
  value_le set xs ys c settled other z p q =
      elim (Bool-cases (ltb 0 (count (λ x. x == z) (away set ys)))) [
        | inr e ↦ ground arith
        | inl e ↦
            let at = away_place z set ys p (ground arith) in
            let leaves : Edges map n 1 set z → ⊥ = λ edges. ground (
              arith,
              at.3,
              edges at.0 (positive at.0 at.2) (omega (arith, at.1, other.size)) (
                  subst (λ w. map w at.0 ≡ true) at.2
                    (other.edges at.0 (λ w. absurd (omega (arith, at.2))))),
            ) in
            elim (settled z p q) [
              | inr edges ↦ absurd (leaves edges)
              | inl once ↦ omega (
                arith,
                once,
                away_le z set ys p,
                other.once z p,
                away_whole z set xs (λ j f g. leaves (subst (Edges map n 1 set) f (c j g).1)) p,
              )
            ]
      ]
    where
      positive : (j : ℕ) → get_or ys j 0 ≡ z → 1 ≤ j
      positive zero f = absurd (omega (arith, f, other.unused))
      positive (suc j) f = omega arith

  -- No matching is larger than one with a closed set in which the edges of every left node end that is
  -- not linked.
  pub matched-largest :
      (set : ℕ → Bool) (xs ys : List ℕ)
      → IsMatching map n xs
      → IsClosed map n set xs
      → ((z : ℕ) → 0 < z → z ≤ n → Settled set xs z)
      → IsMatching map n ys
      → matched n ys ≤ matched n xs
  matched-largest set xs ys mine c settled other = omega (
    arith,
    split_le (in_range n) set ys,
    split_eq (in_range n) set xs (ground arith) (λ j e. in_range_of j (c j e).0),
    values_le n (away set ys) (away set xs) (value_le set xs ys c settled other),
    places_eq set xs ys (mine.size ∙ sym other.size),
  )
    where
      in_range_of : (j : ℕ) → get_or xs j 0 ≢ 0 → in_range n (get_or xs j 0) ≡ true
      in_range_of j d = let l = mine.inside j in ground arith
