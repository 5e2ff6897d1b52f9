-- ===== src/Sort/Ranges.antt =====
-- The partition phase puts every tuple into its range, and keeps the order.
use mosito.Base.{
  ℕ, zero, suc, ◌+◌, ◌<◌, ◌≡◌, refl, ap, sym, ◌∙◌, Bool, true, false, ◌&&◌, some, List, [], ◌∷◌,
  ◌++◌, length, take, get_or, set, ltb, leb, ◌==◌, if◌then◌else◌, arith, All, Bool-cases, inl, inr,
  get_or-set_self, get_or-set_ne, length-set,
}
use mathlib.Core.List.{append_assoc, append-nil}
use mosito.Sort.{key, compare_start_end_from, compare_start_end, distribute}

abbrev pub all_le : List ℕ → ℕ → Bool
all_le [] v = true
all_le (b ∷ bs) v = leb b v && all_le bs v

-- Bound `i` is the first one above `v`.
abbrev pub in_range : List ℕ → ℕ → ℕ → Bool
in_range bs i v = ltb i (length bs) && (ltb v (get_or bs i 0) && all_le (take i bs) v)

-- Some bound is above `v`.
abbrev pub IsBelow : List ℕ → ℕ → Type 0
IsBelow bs v = (i : ℕ) × (i < length bs) × (v < get_or bs i 0)

abbrev pub keep : (List ℕ → Bool) → List (List ℕ) → List (List ℕ)
keep p [] = []
keep p (t ∷ ts) = if p t then t ∷ keep p ts else keep p ts

pub first_above :
    (bs : List ℕ) (i v : ℕ)
    → IsBelow bs v
    → (j : ℕ) × (j < length bs)
      × (compare_start_end_from i bs v ≡ some (i + j))
      × ((k : ℕ) → in_range bs k v ≡ (k == j))
unfolding compare_start_end_from
first_above [] i v (k, h, l) = absurd (omega arith)
first_above (b ∷ bs) i v w = elim (Bool-cases (ltb v b)) [
  | inl e ↦ (0, omega arith, ground (arith, e), at_first e)
  | inr e ↦ later e (first_above bs (i + 1) v (below w e))
]
  where
    at_first : ltb v b ≡ true → (k : ℕ) → in_range (b ∷ bs) k v ≡ (k == 0)
    at_first e zero = ground (arith, e)
    at_first e (suc k) = ground (arith, e)

    below : IsBelow (b ∷ bs) v → ltb v b ≡ false → IsBelow bs v
    below (zero, h, l) e = absurd (ground (arith, e, l))
    below (suc k, h, l) e = (k, omega arith, l)

    later :
        ltb v b ≡ false
        → (j : ℕ) × (j < length bs)
          × (compare_start_end_from (i + 1) bs v ≡ some (i + 1 + j))
          × ((k : ℕ) → in_range bs k v ≡ (k == j))
        → (j : ℕ) × (j < length (b ∷ bs))
          × (compare_start_end_from i (b ∷ bs) v ≡ some (i + j))
          × ((k : ℕ) → in_range (b ∷ bs) k v ≡ (k == j))
    later e (j, h, f, g) = (suc j, omega arith, rw e (f ∙ ap some (omega arith)), others)
      where
        others : (k : ℕ) → in_range (b ∷ bs) k v ≡ (k == suc j)
        others zero = ground (arith, e)
        others (suc k) = ground (arith, e, g k)

-- One tuple more in range `j`.
push_back-placed :
    (ranges : List (List (List ℕ))) (t : List ℕ) (rest : List (List ℕ)) (i j : ℕ) (here : Bool)
    → j < length ranges
    → here ≡ (i == j)
    → get_or (set ranges j (get_or ranges j [] ++ t ∷ [])) i [] ++ rest
      ≡ get_or ranges i [] ++ (if here then t ∷ rest else rest)
push_back-placed ranges t rest i j true h e =
    let f : i ≡ j = ground (arith, e) in
    rw f (
      ap (λ xs. xs ++ rest) (get_or-set_self ranges j (get_or ranges j [] ++ t ∷ []) [] h)
      ∙ append_assoc (get_or ranges j []) (t ∷ []) rest)
push_back-placed ranges t rest i j false h e =
    ap (λ xs. xs ++ rest)
      (get_or-set_ne ranges j i (get_or ranges j [] ++ t ∷ []) []
        (λ f. absurd (ground (arith, e, f))))

distribute_step :
    (dist_ranges : List ℕ) (ranges : List (List (List ℕ))) (t : List ℕ) (ts : List (List ℕ)) (r : ℕ)
    → compare_start_end dist_ranges (key t) ≡ some r
    → distribute dist_ranges ranges (t ∷ ts)
      ≡ distribute dist_ranges (set ranges r (get_or ranges r [] ++ t ∷ [])) ts
unfolding distribute
distribute_step dist_ranges ranges t ts r e = rw (e, distribute) refl

pub record Distributed (dist_ranges : List ℕ) (ranges rs : List (List (List ℕ)))
    (ts : List (List ℕ)) : Type 0 where
  pub same_length : length rs ≡ length ranges
  pub placed :
      (i : ℕ) → get_or rs i [] ≡ get_or ranges i [] ++ keep (λ t. in_range dist_ranges i (key t)) ts

-- When every key has a bound above it, the partition phase adds to each range the tuples of whose keys
-- its bound is the first above, in the order of the input, and no others.
pub distribute-Distributed :
    (dist_ranges : List ℕ) (ranges : List (List (List ℕ))) (ts : List (List ℕ))
    → length ranges ≡ length dist_ranges
    → All (λ t. IsBelow dist_ranges (key t)) ts
    → (rs : List (List (List ℕ))) × (distribute dist_ranges ranges ts ≡ some rs)
      × Distributed dist_ranges ranges rs ts
unfolding distribute compare_start_end
distribute-Distributed dist_ranges ranges [] n h = (
  ranges,
  refl,
  record { same_length = refl; placed = λ i. sym (append-nil (get_or ranges i [])) },
)
distribute-Distributed dist_ranges ranges (t ∷ ts) n (h, hs) =
    let (j, inside, found, only) = first_above dist_ranges 0 (key t) h in
    let ranges' = set ranges j (get_or ranges j [] ++ t ∷ []) in
    let kept = length-set ranges j (get_or ranges j [] ++ t ∷ []) in
    let (rs, done, d) = distribute-Distributed dist_ranges ranges' ts (kept ∙ n) hs in
    (
      rs,
      distribute_step dist_ranges ranges t ts j (found ∙ ap some (omega arith)) ∙ done,
      record {
        same_length = d.same_length ∙ kept;
        placed = λ i.
            d.placed i
            ∙ push_back-placed ranges t (keep (λ t. in_range dist_ranges i (key t)) ts) i j
                (in_range dist_ranges i (key t)) (omega (arith, inside, n)) (only i);
      },
    )
