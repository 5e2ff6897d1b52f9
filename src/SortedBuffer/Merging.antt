-- ===== src/SortedBuffer/Merging.antt =====
-- The state of a merge, and what of each column is left.
use mosito.Base.{
  ℕ, zero, suc, ◌≤◌, ◌<◌, ◌≡◌, refl, sym, subst, ◌⊎◌, inl, inr, arith, Bool, true, false, List, [],
  ◌∷◌, ◌++◌, concat, length, get_or, set, All, All-map, length-append,
}
use mosito.Heap.Same.{count, All-both}
use mosito.Heap.Sift.{IsOrder}
use mosito.LoserTree.{win_tuple}
use mosito.LoserTree.Won.{IsTournament, winner_least}
use mosito.Runs.Ascending.{IsAscending}
use mosito.SortedBuffer.{PcBuffer}

module _ {ℓ} {T : Type ℓ} where
  abbrev pub is_nil : List T → Bool
  is_nil [] = true
  is_nil (x ∷ xs) = false

  pub some_left :
      (rests : List (List T))
      → 0 < length (concat rests)
      → (j : ℕ) × (x : T) × (xs : List T) × (j < length rests) × (get_or rests j [] ≡ x ∷ xs)
  some_left [] h = absurd (omega arith)
  some_left ([] ∷ rests) h =
      let (j, x, xs, k, e) = some_left rests h in (suc j, x, xs, omega (arith, k), e)
  some_left ((x ∷ xs) ∷ rests) h = (0, x, xs, omega arith, refl)

  pub all_nil :
      (rests : List (List T)) → count is_nil rests ≡ length rests → length (concat rests) ≡ 0
  all_nil [] h = refl
  all_nil ([] ∷ rests) h = all_nil rests (omega (arith, h))
  all_nil ((x ∷ xs) ∷ rests) h = absurd (omega (arith, h, nils_le rests))
    where
      nils_le : (rests : List (List T)) → count is_nil rests ≤ length rests
      nils_le [] = omega arith
      nils_le ([] ∷ rests) = omega (arith, nils_le rests)
      nils_le ((x ∷ xs) ∷ rests) = omega (arith, nils_le rests)

  pub nil_all :
      (rests : List (List T)) → length (concat rests) ≡ 0 → count is_nil rests ≡ length rests
  nil_all [] h = refl
  nil_all ([] ∷ rests) h = omega (arith, nil_all rests h)
  nil_all ((x ∷ xs) ∷ rests) h = absurd (omega (arith, h))

  pub part_le : (rests : List (List T)) (i : ℕ) → length (get_or rests i []) ≤ length (concat rests)
  part_le [] i = omega arith
  part_le (r ∷ rests) zero = omega (arith, length-append r (concat rests))
  part_le (r ∷ rests) (suc i) = omega (arith, part_le rests i, length-append r (concat rests))

  pub All-parts {κ} :
      (P : T → Type κ) (rests : List (List T))
      → ((j : ℕ) → j < length rests → All P (get_or rests j []))
      → All P (concat rests)
  All-parts P [] f = tt
  All-parts P (r ∷ rests) f =
      All-both P r (concat rests) (f 0 (omega arith))
        (All-parts P rests (λ j h. f (suc j) (omega (arith, h))))

  All-front {κ} : (P : T → Type κ) (xs ys : List T) → All P (xs ++ ys) → All P xs × All P ys
  All-front P [] ys h = (tt, h)
  All-front P (x ∷ xs) ys (h, hs) = let (a, b) = All-front P xs ys hs in ((h, a), b)

  pub All-part {κ} :
      (P : T → Type κ) (rests : List (List T)) (j : ℕ)
      → All P (concat rests)
      → All P (get_or rests j [])
  All-part P [] j h = tt
  All-part P (r ∷ rests) zero h = (All-front P r (concat rests) h).0
  All-part P (r ∷ rests) (suc j) h = All-part P rests j (All-front P r (concat rests) h).1

  -- What all have, those have that are left.
  pub All-set {κ} :
      (P : T → Type κ) (rests : List (List T)) (i : ℕ) (t : T) (tail : List T)
      → get_or rests i [] ≡ t ∷ tail
      → All P (concat rests)
      → All P (concat (set rests i tail))
  All-set P [] i t tail e a = tt
  All-set P (r ∷ rests) zero t tail e a =
      let (x, y) = All-front P r (concat rests) a in
      All-both P tail (concat rests) (subst (All P) e x).1 y
  All-set P (r ∷ rests) (suc i) t tail e a =
      let (x, y) = All-front P r (concat rests) a in
      All-both P r (concat (set rests i tail)) x (All-set P rests i t tail e y)

  -- The loaded tuple of a column that has not ended, its iterator and its pages make up its rest.
  pub record Live (tuple : T) (itr : List T) (column : List (List T)) (rest : List T) : Type ℓ where
    pub pages : List (List T)
    pub marked : column ≡ pages ++ [] ∷ []
    pub filled : All (λ page. 0 < length page) pages
    pub made_of : rest ≡ tuple ∷ (itr ++ concat pages)

module _ {ℓ} {T : Type ℓ} (compare : T → T → Bool) (nothing : T) (is_null : T → Bool)
    (last : T) where
  abbrev pub Holds : T → List T → List (List T) → List T → Type ℓ
  Holds tuple itr column rest = Live tuple itr column rest ⊎ ((rest ≡ []) × (tuple ≡ last))

  pub Holds-same :
      (t t' : T) (itr itr' : List T) (column column' : List (List T)) (rest rest' : List T)
      → t ≡ t'
      → itr ≡ itr'
      → column ≡ column'
      → rest ≡ rest'
      → Holds t itr column rest
      → Holds t' itr' column' rest'
  Holds-same t t' itr itr' column column' rest rest' e f g h k =
      subst (λ x. Holds x itr' column' rest') e
        (subst (λ x. Holds t x column' rest') f
          (subst (λ x. Holds t itr x rest') g (subst (λ x. Holds t itr column x) h k)))

  pub record Merging (s : PcBuffer T) (rests : List (List T)) : Type ℓ where
    pub begun : s.begin ≡ true
    pub tournament : IsTournament compare nothing s.lt
    pub players : s.lt.n ≡ s.row
    pub rows : length rests ≡ s.row
    pub iterators : length s.itrs ≡ s.row
    pub queues : length s.columns ≡ s.row
    pub holds :
        (i : ℕ)
        → i < s.row
        → Holds
            (get_or s.lt.l (suc i) nothing)
            (get_or s.itrs i [])
            (get_or s.columns i [])
            (get_or rests i [])
    pub ended : s.finished ≡ count is_nil rests
    pub ascending : (i : ℕ) → IsAscending compare (get_or rests i [])
    pub within : All (λ x. compare last x ≡ false) (concat rests)
    pub present : All (λ x. is_null x ≡ false) (concat rests)

  -- The winner's tuple is not behind anything that is left.
  pub least_left :
      (s : PcBuffer T) (rests : List (List T))
      → IsOrder compare
      → Merging s rests
      → All (λ x. compare (win_tuple compare nothing s.lt) x ≡ true) (concat rests)
  least_left s rests order m =
      All-parts _ rests
        (λ j h. least_of j (omega (arith, h, m.rows)) (m.holds j (omega (arith, h, m.rows))))
    where
      after :
          (t x : T) (xs : List T)
          → compare t x ≡ true
          → All (λ y. compare x y ≡ true) xs
          → All (λ y. compare t y ≡ true) (x ∷ xs)
      after t x xs e h = (e, All-map xs (λ y f. order.trans t x y e f) h)

      least_of :
          (j : ℕ)
          → j < s.row
          → Holds
              (get_or s.lt.l (suc j) nothing)
              (get_or s.itrs j [])
              (get_or s.columns j [])
              (get_or rests j [])
          → All (λ x. compare (win_tuple compare nothing s.lt) x ≡ true) (get_or rests j [])
      least_of j h (inl l) =
          subst (λ r. All (λ x. compare (win_tuple compare nothing s.lt) x ≡ true) r)
            (sym l.made_of)
            (after (win_tuple compare nothing s.lt) (get_or s.lt.l (suc j) nothing) _
              (winner_least compare nothing s.lt (suc j) order m.tournament (omega arith)
                (omega (arith, h, m.players)))
              (subst (IsAscending compare) l.made_of (m.ascending j)).0)
      least_of j h (inr l) =
          subst (λ r. All (λ x. compare (win_tuple compare nothing s.lt) x ≡ true) r) (sym l.0) tt
