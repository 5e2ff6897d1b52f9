-- ===== src/Matching/Fuel.antt =====
-- src/analysis/m_km.cpp: `find` comes to an end.
use mosito.Base.{
  ℕ, zero, suc, ◌+◌, ◌≤◌, ◌<◌, ◌≡◌, refl, ap, subst, Bool, true, false, not, ◌&&◌, inl, inr, arith,
  Bool-cases, ◌==◌,
}
use mosito.Heap.Same.{bit, count, count-set, count_le}
use mosito.Matching.{Marks, seen, partner, mark, claim, find_from, find_fuel, find}
use mosito.Matching.Calls.{From, ends, skips, takes, moves, fails}
use mosito.Matching.Keeps.{IsSized, mark-IsSized, From-IsSized, not-seen}

abbrev unseen : Marks → ℕ
unseen s = count not s.vis

mark-unseen :
    (n i : ℕ) (s : Marks)
    → IsSized n s
    → i ≤ n
    → seen s i ≡ false
    → unseen (mark s i) + 1 ≡ unseen s
mark-unseen n i s z l e =
    omega (arith, count-set not s.vis i true false (omega (arith, z.vis)), ap (λ b. bit (not b)) e)

From-unseen :
    {map : ℕ → ℕ → Bool} {n x i k : ℕ} {s t : Marks} {b : Bool}
    → From map n x i k s b t
    → IsSized n s
    → i + k ≤ n + 1
    → unseen t ≤ unseen s
From-unseen ends z l = omega arith
From-unseen (skips c f) z l = From-unseen f z (omega arith)
From-unseen {map = map} (takes {x = x} {i = i} {s = s} c q) z l =
    omega (arith, mark-unseen _ i s z (omega arith) (not-seen map x i s c).1)
From-unseen {map = map} (moves {x = x} {i = i} {s = s} c q f) z l = omega (
  arith,
  mark-unseen _ i s z (omega arith) (not-seen map x i s c).1,
  From-unseen f (mark-IsSized _ s i z) (omega arith),
)
From-unseen {map = map} (fails {x = x} {i = i} {s = s} c q f g) z l =
    let zm = mark-IsSized _ s i z in
    omega (
      arith,
      mark-unseen _ i s z (omega arith) (not-seen map x i s c).1,
      From-unseen f zm (omega arith),
      From-unseen g (From-IsSized f zm) (omega arith),
    )

module _ (map : ℕ → ℕ → Bool) (n : ℕ) where
  -- The result of a call, as a call that comes to an end.
  abbrev Ends : ℕ → ℕ → ℕ → Marks → Bool × Marks → Type 0
  Ends x i k s r = From map n x i k s r.0 r.1

  module _ (again : ℕ → Marks → Bool × Marks) (x i k : ℕ) (s : Marks) where
    skip_eq :
        (map x i && not (seen s i)) ≡ false
        → find_from map n again x i (suc k) s ≡ find_from map n again x (i + 1) k s
    unfolding find_from
    skip_eq c = rw (c, find_from) refl

    take_eq :
        (map x i && not (seen s i)) ≡ true
        → (partner s i == 0) ≡ true
        → find_from map n again x i (suc k) s ≡ (true, claim (mark s i) i x)
    unfolding find_from
    take_eq c p = rw (c, p, find_from) refl

    move_eq :
        (map x i && not (seen s i)) ≡ true
        → (partner s i == 0) ≡ false
        → (again (partner s i) (mark s i)).0 ≡ true
        → find_from map n again x i (suc k) s ≡ (true, claim (again (partner s i) (mark s i)).1 i x)
    unfolding find_from
    move_eq c p e = rw (c, p, e, find_from) refl

    fail_eq :
        (map x i && not (seen s i)) ≡ true
        → (partner s i == 0) ≡ false
        → (again (partner s i) (mark s i)).0 ≡ false
        → find_from map n again x i (suc k) s
          ≡ find_from map n again x (i + 1) k (again (partner s i) (mark s i)).1
    unfolding find_from
    fail_eq c p e = rw (c, p, e, find_from) refl

  find_from-Ends :
      (fuel : ℕ) (again : ℕ → Marks → Bool × Marks)
      → ((y : ℕ) (s : Marks) → IsSized n s → unseen s < fuel → Ends y 1 n s (again y s))
      → (x i k : ℕ) (s : Marks) → IsSized n s
      → i + k ≤ n + 1
      → unseen s < suc fuel
      → Ends x i k s (find_from map n again x i k s)
  unfolding find_from
  find_from-Ends fuel again ok x i zero s z l u = ends
  find_from-Ends fuel again ok x i (suc k) s z l u = elim (Bool-cases (map x i && not (seen s i))) [
    | inr c ↦
        rw (skip_eq again x i k s c)
          (skips c (find_from-Ends fuel again ok x (i + 1) k s z (omega arith) u))
    | inl c ↦ elim (Bool-cases (partner s i == 0)) [
      | inl p ↦ rw (take_eq again x i k s c p) (takes c (ground arith))
      | inr p ↦
          let zm = mark-IsSized n s i z in
          let less = mark-unseen n i s z (omega arith) (not-seen map x i s c).1 in
          let r = again (partner s i) (mark s i) in
          let f = ok (partner s i) (mark s i) zm (omega arith) in
          elim (Bool-cases (r.0)) [
            | inl e ↦ rw (move_eq again x i k s c p e) (
                moves c (ground arith)
                  (subst (λ b. From map n (partner s i) 1 n (mark s i) b r.1) e f))
            | inr e ↦ rw (fail_eq again x i k s c p e) (
                let g = subst (λ b. From map n (partner s i) 1 n (mark s i) b r.1) e f in
                fails c (ground arith) g (
                  find_from-Ends fuel again ok x (i + 1) k r.1 (From-IsSized g zm) (omega arith)
                    (omega (arith, From-unseen g zm (omega arith)))))
          ]
    ]
  ]

  find_fuel-Ends :
      (fuel x : ℕ) (s : Marks)
      → IsSized n s
      → unseen s < fuel
      → Ends x 1 n s (find_fuel map n fuel x s)
  unfolding find_fuel
  find_fuel-Ends zero x s z u = absurd (omega arith)
  find_fuel-Ends (suc fuel) x s z u =
      find_from-Ends fuel (find_fuel map n fuel) (find_fuel-Ends fuel) x 1 n s z (omega arith) u

  -- `find` comes to an end as the calls that do.
  pub find-From :
      (x : ℕ) (s : Marks) → IsSized n s → From map n x 1 n s (find map n x s).0 (find map n x s).1
  unfolding find
  find-From x s z = find_fuel-Ends (n + 2) x s z (omega (arith, count_le not s.vis, z.vis))
