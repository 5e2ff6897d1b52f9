-- ===== src/Ring/Pool.antt =====
-- src/common/m_thread_pool.cpp: adding and taking tasks.
use mosito.Base.{
  ℕ, zero, suc, ◌≤◌, ◌<◌, ◌≡◌, refl, ap, ◌∙◌, true, false, none, some, List, [], ◌∷◌, ◌++◌, length,
  arith, if◌then◌else◌, ◌⊎◌, inl, inr, ◌==◌, Bool-cases,
}
use mosito.Ring.{CircleQueue, push, pop, is_empty, add_into_thread_pool, take_task}
use mosito.Ring.Slots.{entry, slots}
use mosito.Ring.Push.{push-refines}
use mosito.Ring.Pop.{none_steps, some_steps, popped, popped-IsRing, pop_some, contents-popped}
use mosito.Ring.Fifo.{IsRing, contents, offer}

module _ {ℓ} {T : Type ℓ} (null : T) where
  offer_done :
      (capacity : ℕ) (xs : List T) (x : T)
      → length xs < capacity
      → offer capacity xs x ≡ (true, xs ++ x ∷ [])
  offer_done capacity xs x h = ground (arith, h)

  offer_not :
      (capacity : ℕ) (xs : List T) (x : T)
      → capacity ≤ length xs
      → offer capacity xs x ≡ (false, xs)
  offer_not capacity xs x h = ground (arith, h)

  -- A task that is added to a pool with room is stored behind the others in the first round.
  pub add_into_thread_pool-stores :
      (fuel : ℕ) (q : CircleQueue null) (task : T)
      → IsRing null q
      → length (contents null q) < q.queue_capacity
      → (q' : CircleQueue null) × (add_into_thread_pool null (suc fuel) q task ≡ some q')
        × IsRing null q'
        × (contents null q' ≡ contents null q ++ task ∷ [])
  unfolding add_into_thread_pool
  add_into_thread_pool-stores fuel q task v h =
      let r = push-refines null q task v in
      let e = r.1 ∙ offer_done q.queue_capacity (contents null q) task h in
      (
        (push null q task).1,
        ap (λ b. if b then some (push null q task).1 else add_into_thread_pool null fuel q task)
            (ap (λ p. p.0) e),
        r.0,
        ap (λ p. p.1) e,
      )

  -- On a full pool `add_into_thread_pool` never comes to an end, however many rounds it is given.
  pub add_into_thread_pool_stuck :
      (fuel : ℕ) (q : CircleQueue null) (task : T)
      → IsRing null q
      → q.queue_capacity ≤ length (contents null q)
      → add_into_thread_pool null fuel q task ≡ none
  unfolding add_into_thread_pool
  add_into_thread_pool_stuck zero q task v h = refl
  add_into_thread_pool_stuck (suc fuel) q task v h =
      let e =
        (push-refines null q task v).1 ∙ offer_not q.queue_capacity (contents null q) task h in
      ap (λ b. if b then some (push null q task).1 else add_into_thread_pool null fuel q task)
        (ap (λ p. p.0) e)
      ∙ add_into_thread_pool_stuck fuel q task v h

  waits : (q : CircleQueue null) → (q.rear == q.front) ≡ true → take_task null q ≡ none
  unfolding take_task is_empty
  waits q e = rw e refl

  takes :
      (q : CircleQueue null) → (q.rear == q.front) ≡ false → take_task null q ≡ some (pop null q)
  unfolding take_task is_empty
  takes q e = rw e refl

  -- A worker waits exactly when there is no task, and otherwise takes the oldest one.
  pub take_task_cases :
      (q : CircleQueue null)
      → IsRing null q
      → ((contents null q ≡ []) × (take_task null q ≡ none))
        ⊎ ((task : T) × (q' : CircleQueue null) × (take_task null q ≡ some (task, q'))
            × IsRing null q'
            × (contents null q ≡ task ∷ contents null q'))
  take_task_cases q v = elim (Bool-cases (q.rear == q.front)) [
    | inl e ↦ inl (
      ap (slots null q.queue_capacity q.nodes q.front)
          (none_steps null q.queue_capacity q.front q.rear e),
      waits q e,
    )
    | inr e ↦
        let n = some_steps null q.queue_capacity q.front q.rear v.front_inside e in
        inr (
          entry null q.nodes q.front,
          popped null q,
          takes q e ∙ ap some (pop_some null q e),
          popped-IsRing null q v,
          contents-popped null q n.0 v n.1,
        )
  ]
