-- ===== src/Ring/Pop.antt =====
-- `pop` on a ring.
use mosito.Base.{
  ℕ, suc, ◌-◌, ◌≤◌, ◌≡◌, refl, ap, sym, ◌∙◌, subst, true, false, ◌∷◌, get_or, ◌==◌, arith,
  Bool-cases, inl, inr,
}
use mosito.Ring.{CircleQueue, outside, pop}
use mosito.Ring.Slots.{step, steps, steps-step, step-bound, entry, slots}
use mosito.Ring.Fifo.{poll, IsRing, contents}

module _ {ℓ} {T : Type ℓ} (null : T) where
  pop_none : (q : CircleQueue null) → (q.rear == q.front) ≡ true → pop null q ≡ (null, q)
  unfolding pop
  pop_none q e = rw e refl

  pub popped : CircleQueue null → CircleQueue null
  popped q = record q { front = (get_or q.nodes q.front (outside null)).next }

  pub pop_some :
      (q : CircleQueue null)
      → (q.rear == q.front) ≡ false
      → pop null q ≡ (entry null q.nodes q.front, popped q)
  unfolding pop popped
  pop_some q e = rw e refl

  pub none_steps : (capacity f r : ℕ) → (r == f) ≡ true → steps capacity f r ≡ 0
  none_steps capacity f r e = ground (arith, e)

  pub some_steps :
      (capacity f r : ℕ) → f ≤ capacity → (r == f) ≡ false → (n : ℕ) × (steps capacity f r ≡ suc n)
  some_steps capacity f r h e = (steps capacity f r - 1, ground (arith, h, e))

  pub popped-IsRing : (q : CircleQueue null) → IsRing null q → IsRing null (popped q)
  unfolding popped
  popped-IsRing q v = record {
    size = v.size;
    linked = v.linked;
    front_inside =
        subst (λ k. k ≤ q.queue_capacity) (sym (v.linked q.front v.front_inside))
          (step-bound q.queue_capacity q.front v.front_inside);
    rear_inside = v.rear_inside;
  }

  pub contents-popped :
      (q : CircleQueue null) (n : ℕ)
      → IsRing null q
      → steps q.queue_capacity q.front q.rear ≡ suc n
      → contents null q ≡ entry null q.nodes q.front ∷ contents null (popped q)
  unfolding popped
  contents-popped q n v e =
      ap (slots null q.queue_capacity q.nodes q.front) e
      ∙ ap
          (λ k.
            entry null q.nodes q.front
            ∷ slots null q.queue_capacity q.nodes (step q.queue_capacity q.front) k)
          (sym (steps-step q.queue_capacity q.front q.rear n v.front_inside v.rear_inside e))
      ∙ ap
          (λ f.
            entry null q.nodes q.front
            ∷ slots null q.queue_capacity q.nodes f (steps q.queue_capacity f q.rear))
          (sym (v.linked q.front v.front_inside))

  -- On a ring, `pop` answers and works as on a first-in-first-out queue, and leaves a ring.
  pub pop-refines :
      (q : CircleQueue null)
      → IsRing null q
      → IsRing null (pop null q).1
        × (((pop null q).0, contents null (pop null q).1) ≡ poll null (contents null q))
  pop-refines q v = elim (Bool-cases (q.rear == q.front)) [
    | inl e ↦ rw (pop_none q e) (v, at_end e)
    | inr e ↦
        let n = some_steps q.queue_capacity q.front q.rear v.front_inside e in
        rw (pop_some q e) (popped-IsRing q v, ap (poll null) (sym (contents-popped q n.0 v n.1)))
  ]
    where
      at_end : (q.rear == q.front) ≡ true → (null, contents null q) ≡ poll null (contents null q)
      at_end e = rw (none_steps q.queue_capacity q.front q.rear e) refl
