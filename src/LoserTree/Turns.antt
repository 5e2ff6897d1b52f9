-- ===== src/LoserTree/Turns.antt =====
-- The players of a tournament are reached one after the other.
use mosito.Base.{
  ℕ, zero, suc, ◌+◌, ◌-◌, ◌*◌, ◌/◌, ◌%◌, ◌≤◌, ◌<◌, ◌≡◌, ◌≢◌, refl, ap, ◌∙◌, arith, Bool, false,
  List, get_or, length, ◌==◌, if◌then◌else◌, Bool-cases, inl, inr,
}
use mosito.LoserTree.{play}
use mosito.LoserTree.Rising.{length-play}
use mosito.LoserTree.Places.{place}

module _ {ℓ} {T : Type ℓ} (compare : T → T → Bool) (nothing : T) (n s : ℕ) (less : s < n)
    (last : n ≤ 2 * s) (l : List T) (start : List ℕ) where
  -- What is played when player `i` is reached: a player at a left child waits.
  unfoldable pub act : ℕ → List ℕ → List ℕ
  act i b =
      if place n s less last i % 2 == 0
      then b
      else if place n s less last i == n
      then play compare nothing l (n / 2) (get_or b ((n - 1) / 2) 0) i b
      else play compare nothing l (place n s less last i / 2) (i - 1) i b

  -- The first players, one after the other.
  unfoldable pub run : ℕ → List ℕ
  unfolding act
  run zero = start
  run (suc i) = act (suc i) (run i)

  pub act_waits : (i : ℕ) (b : List ℕ) → place n s less last i % 2 ≡ 0 → act i b ≡ b
  unfolding act
  act_waits i b h = rw h refl

  pub act_odd :
      (i : ℕ) (b : List ℕ)
      → place n s less last i ≡ n
      → n % 2 ≡ 1
      → act i b ≡ play compare nothing l (n / 2) (get_or b ((n - 1) / 2) 0) i b
  unfolding act
  act_odd i b h k = ground (arith, h, k)

  pub act_pair :
      (i v : ℕ) (b : List ℕ)
      → place n s less last i ≡ 2 * v + 1
      → 2 * v + 1 ≢ n
      → act i b ≡ play compare nothing l v (i - 1) i b
  unfolding act
  act_pair i v b h k =
      let p : (place n s less last i % 2 == 0) ≡ false = ground (arith, h) in
      let q : (place n s less last i == n) ≡ false = ground (arith, h, k) in
      let e : place n s less last i / 2 ≡ v = omega (arith, h) in
      rw (p, q) (ap (λ t. play compare nothing l t (i - 1) i b) e)

  length-act : (i : ℕ) (b : List ℕ) → length (act i b) ≡ length b
  unfolding act
  length-act i b = elim (Bool-cases (place n s less last i % 2 == 0)) [
    | inl e ↦ rw e refl
    | inr e ↦ elim (Bool-cases (place n s less last i == n)) [
      | inl f ↦ rw (e, f) (length-play compare nothing l (n / 2) _ i b)
      | inr f ↦ rw (e, f) (length-play compare nothing l _ (i - 1) i b)
    ]
  ]

  pub length-run : (i : ℕ) → length (run i) ≡ length start
  unfolding run
  length-run zero = refl
  length-run (suc i) = length-act (suc i) (run i) ∙ length-run i
