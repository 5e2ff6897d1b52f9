-- ===== src/LoserTree/Rising.antt =====
-- The loop of `play`: a match that is won at a right child goes on at its parent, one at a left child
-- waits in the parent.
use mosito.Base.{
  ℕ, zero, suc, ◌+◌, ◌*◌, ◌/◌, ◌%◌, ◌≤◌, ◌<◌, ◌≡◌, refl, ap, ◌∙◌, arith, Bool, true, false, List,
  get_or, set, length, ltb, ◌&&◌, ◌==◌, Bool-cases, inl, inr, length-set,
}
use mosito.LoserTree.{win, lose, play_from, play}

module _ {ℓ} {T : Type ℓ} (compare : T → T → Bool) (nothing : T) (l : List T) where
  play_enough :
      (f g p w : ℕ) (b : List ℕ)
      → p ≤ f
      → p ≤ g
      → play_from compare nothing f l p w b ≡ play_from compare nothing g l p w b
  unfolding play_from
  play_enough zero zero p w b h k = refl
  play_enough zero (suc g) p w b h k =
      let e : (ltb 1 p && (p % 2 == 1)) ≡ false = ground (arith, h) in rw (e, play_from) refl
  play_enough (suc f) zero p w b h k =
      let e : (ltb 1 p && (p % 2 == 1)) ≡ false = ground (arith, k) in rw (e, play_from) refl
  play_enough (suc f) (suc g) p w b h k = elim (Bool-cases (ltb 1 p && (p % 2 == 1))) [
    | inl e ↦ rw (e, play_from) (play_enough f g (p / 2) _ _ (omega (arith, h)) (omega (arith, k)))
    | inr e ↦ rw (e, play_from) refl
  ]

  pub play_left :
      (fuel v w : ℕ) (b : List ℕ) → play_from compare nothing fuel l (2 * v) w b ≡ set b v w
  unfolding play_from
  play_left zero v w b = ap (λ p. set b p w) (omega arith)
  play_left (suc fuel) v w b =
      let e : (ltb 1 (2 * v) && ((2 * v) % 2 == 1)) ≡ false = ground arith in
      rw (e, play_from) (ap (λ p. set b p w) (omega arith))

  -- The state behind the match at `v` of the waiting player and `w`.
  abbrev pub met : ℕ → ℕ → List ℕ → List ℕ
  met v w b =
      play_from compare nothing v l v (win compare nothing l w (get_or b v 0))
        (set b v (lose compare nothing l w (get_or b v 0)))

  pub play_right :
      (v w : ℕ) (b : List ℕ)
      → 0 < v
      → play_from compare nothing (2 * v + 1) l (2 * v + 1) w b ≡ met v w b
  unfolding play_from
  play_right v w b h =
      let e : (ltb 1 (2 * v + 1) && ((2 * v + 1) % 2 == 1)) ≡ true = ground (arith, h) in
      let q : (2 * v + 1) / 2 ≡ v = omega arith in
      play_enough (2 * v + 1) (suc (2 * v)) (2 * v + 1) w b (omega arith) (omega arith)
      ∙ rw (e, play_from)
          (ap
            (λ p.
              play_from compare nothing (2 * v) l p (win compare nothing l w (get_or b p 0))
                (set b p (lose compare nothing l w (get_or b p 0))))
            q)
      ∙ play_enough (2 * v) v v _ _ (omega arith) (omega arith)

  pub length-play_from :
      (fuel p w : ℕ) (b : List ℕ) → length (play_from compare nothing fuel l p w b) ≡ length b
  unfolding play_from
  length-play_from zero p w b = length-set b (p / 2) w
  length-play_from (suc fuel) p w b = elim (Bool-cases (ltb 1 p && (p % 2 == 1))) [
    | inl e ↦ rw (e, play_from) (length-play_from fuel (p / 2) _ _ ∙ length-set b (p / 2) _)
    | inr e ↦ rw (e, play_from) (length-set b (p / 2) w)
  ]

  pub length-play :
      (p left right : ℕ) (b : List ℕ) → length (play compare nothing l p left right b) ≡ length b
  unfolding play
  length-play p left right b = length-play_from p p _ _ ∙ length-set b p _

  -- At the root the winner is written to `b[0]`.
  pub play_one : (w : ℕ) (b : List ℕ) → play_from compare nothing 1 l 1 w b ≡ set b 0 w
  unfolding play_from
  play_one w b = refl
