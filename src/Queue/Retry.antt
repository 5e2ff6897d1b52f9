-- ===== src/Queue/Retry.antt =====
-- The attempts of `PCBuffer::put`.
use mosito.Base.{
  ℕ, zero, suc, ◌≤◌, ◌<◌, ◌≡◌, refl, ap, ◌∙◌, Bool, true, false, List, [], ◌∷◌, arith, ◌⊎◌, inl,
  inr, get_or, set,
}
use mosito.Buffer.{Block}
use mosito.Queue.{BlockCircleQueue, push, put_from, put}

module _ (others : ℕ → BlockCircleQueue → BlockCircleQueue) where
  -- The queue at the attempt after `k` failures, of which the first is `left` attempts before the last.
  abbrev pub after : ℕ → ℕ → BlockCircleQueue → BlockCircleQueue
  after left zero q = q
  after zero (suc k) q = q
  after (suc left) (suc k) q = after left k (others left q)

  -- The first of the attempts 0 to `left` that finds an empty block is the one that pushes; when none
  -- does, nothing is pushed.
  abbrev pub FirstRoom : ℕ → BlockCircleQueue → Block → Bool × BlockCircleQueue → Type 0
  FirstRoom left q block r =
      ((k : ℕ) × (k ≤ left)
        × ((j : ℕ) → j < k → (after left j q).emptys ≡ [])
        × ((push (after left k q) block).0 ≡ true)
        × (r ≡ push (after left k q) block))
      ⊎ (((j : ℕ) → j ≤ left → (after left j q).emptys ≡ []) × (r ≡ (false, after left left q)))

  push_cases :
      (q : BlockCircleQueue) (block : Block)
      → ((push q block).0 ≡ true) ⊎ ((q.emptys ≡ []) × (push q block ≡ (false, q)))
  unfolding push
  push_cases q block = cases q.emptys q.blocks
    where
      cases :
          (es bs : List Block)
          → ((push (record q { emptys = es; blocks = bs }) block).0 ≡ true)
            ⊎ ((es ≡ [])
                × (push (record q { emptys = es; blocks = bs }) block
                    ≡ (false, record q { emptys = es; blocks = bs })))
      cases [] bs = inr (refl, refl)
      cases (e ∷ es) bs = inl refl

  put_from_done :
      (left : ℕ) (q : BlockCircleQueue) (block : Block)
      → (push q block).0 ≡ true
      → put_from others (suc left) q block ≡ push q block
  unfolding put_from push
  put_from_done left q block e = rw (e, put_from) refl

  put_from_full :
      (left : ℕ) (q : BlockCircleQueue) (block : Block)
      → push q block ≡ (false, q)
      → put_from others (suc left) q block ≡ put_from others left (others left q) block
  unfolding put_from
  put_from_full left q block e = rw (ap (λ r. r.0) e, put_from) refl

  put_from-FirstRoom :
      (left : ℕ) (q : BlockCircleQueue) (block : Block)
      → FirstRoom left q block (put_from others left q block)
  unfolding put_from
  put_from-FirstRoom zero q block = elim (push_cases q block) [
    | inl e ↦ inl (0, omega arith, (λ j h. absurd (omega arith)), e, refl)
    | inr e ↦ inr ((λ j h. first j h e.0), e.1)
  ]
    where
      first : (j : ℕ) → j ≤ 0 → q.emptys ≡ [] → (after 0 j q).emptys ≡ []
      first zero h e = e
      first (suc j) h e = absurd (omega arith)
  put_from-FirstRoom (suc left) q block = elim (push_cases q block) [
    | inl e ↦ inl (0, omega arith, (λ j h. absurd (omega arith)), e, put_from_done left q block e)
    | inr e ↦ elim (put_from-FirstRoom left (others left q) block) [
      | inl (k, l, before, done, r) ↦ inl (
        suc k,
        omega arith,
        (λ j h. later k before j h e.0),
        done,
        put_from_full left q block e.1 ∙ r,
      )
      | inr (full, r) ↦ inr (
        (λ j h. later (suc left) (λ i g. full i (omega arith)) j (omega arith) e.0),
        put_from_full left q block e.1 ∙ r,
      )
    ]
  ]
    where
      later :
          (k : ℕ)
          → ((j : ℕ) → j < k → (after left j (others left q)).emptys ≡ [])
          → (j : ℕ) → j < suc k
          → q.emptys ≡ []
          → (after (suc left) j q).emptys ≡ []
      later k before zero h e = e
      later k before (suc j) h e = before j (omega arith)

  -- `put` makes at most eleven attempts on its column and leaves the other columns alone. The first
  -- attempt that finds an empty block pushes; when none does, the answer is false and nothing is
  -- pushed. What the other threads do to the queue may be another thing in each gap.
  pub put-FirstRoom :
      (none_there : BlockCircleQueue) (columns : List BlockCircleQueue) (block : Block) (column : ℕ)
      → (r : Bool × BlockCircleQueue) × FirstRoom 10 (get_or columns column none_there) block r
        × (put others none_there columns block column ≡ (r.0, set columns column r.1))
  unfolding put
  put-FirstRoom none_there columns block column = (
    put_from others 10 (get_or columns column none_there) block,
    put_from-FirstRoom 10 (get_or columns column none_there) block,
    refl,
  )
