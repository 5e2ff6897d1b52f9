-- ===== src/LoserTree/Climb.antt =====
-- The loop of `replay`: how it goes on from a node to its parent.
use mosito.Base.{
  ℕ, zero, suc, ◌/◌, ◌≤◌, ◌<◌, ◌≡◌, refl, ap, ◌∙◌, inl, inr, arith, Bool, true, false, List, leb,
  Bool-cases,
}
use mosito.LoserTree.{replay_at, replay_from}

module _ {ℓ} {T : Type ℓ} (compare : T → T → Bool) (nothing : T) where
  -- More rounds than needed change nothing.
  replay_enough :
      (f g : ℕ) (l : List T) (p : ℕ) (b : List ℕ)
      → p ≤ f
      → p ≤ g
      → replay_from compare nothing f l p b ≡ replay_from compare nothing g l p b
  unfolding replay_from
  replay_enough zero zero l p b h k = refl
  replay_enough zero (suc g) l p b h k =
      let e : leb 1 (p / 2) ≡ false = ground (arith, h) in rw (e, replay_from) refl
  replay_enough (suc f) zero l p b h k =
      let e : leb 1 (p / 2) ≡ false = ground (arith, k) in rw (e, replay_from) refl
  replay_enough (suc f) (suc g) l p b h k = elim (Bool-cases (leb 1 (p / 2))) [
    | inl e ↦
        rw (e, replay_from)
          (replay_enough f g l (p / 2) (replay_at compare nothing l (p / 2) b) (omega (arith, h))
            (omega (arith, k)))
    | inr e ↦ rw (e, replay_from) refl
  ]

  replay_round :
      (fuel : ℕ) (l : List T) (p : ℕ) (b : List ℕ)
      → 1 ≤ p / 2
      → replay_from compare nothing (suc fuel) l p b
        ≡ replay_from compare nothing fuel l (p / 2) (replay_at compare nothing l (p / 2) b)
  unfolding replay_from
  replay_round fuel l p b h =
      let e : leb 1 (p / 2) ≡ true = ground (arith, h) in rw (e, replay_from) refl

  pub last_round : (l : List T) (b : List ℕ) → replay_from compare nothing 1 l 1 b ≡ b
  unfolding replay_from
  last_round l b = refl

  pub replay_up :
      (l : List T) (v u : ℕ) (b : List ℕ)
      → u / 2 ≡ v
      → 0 < v
      → replay_from compare nothing u l u b
        ≡ replay_from compare nothing v l v (replay_at compare nothing l v b)
  replay_up l v u b e h =
      replay_enough u (suc u) l u b (omega arith) (omega arith)
      ∙ replay_round u l u b (omega (arith, e, h))
      ∙ ap (λ q. replay_from compare nothing u l q (replay_at compare nothing l q b)) e
      ∙ replay_enough u v l v (replay_at compare nothing l v b) (omega (arith, e)) (omega arith)
