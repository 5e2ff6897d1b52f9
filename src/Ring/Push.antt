-- ===== src/Ring/Push.antt =====
-- `push` on a ring.
use mosito.Base.{
  ℕ, zero, suc, ◌≤◌, ◌<◌, ◌≡◌, ◌≢◌, refl, ap, ap₂, sym, ◌∙◌, subst, true, false, List, [], ◌∷◌,
  ◌++◌, length, get_or, set, ◌==◌, arith, get_or-set_self, length-set, Bool-cases, inl, inr,
}
use mosito.Ring.{CircleNode, CircleQueue, outside, push}
use mosito.Ring.Slots.{step, steps, step-bound, slots, length-slots, slots-set, slots_append}
use mosito.Ring.Fifo.{offer, IsRing, contents}

module _ {ℓ} {T : Type ℓ} (null : T) where
  offer_full :
      (capacity : ℕ) (xs : List T) (x : T)
      → length xs ≡ capacity
      → offer capacity xs x ≡ (false, xs)
  offer_full capacity xs x h = ground (arith, h)

  offer_room :
      (capacity : ℕ) (xs : List T) (x : T)
      → length xs < capacity
      → offer capacity xs x ≡ (true, xs ++ x ∷ [])
  offer_room capacity xs x h = ground (arith, h)

  full_steps :
      (capacity f r : ℕ)
      → f ≤ capacity
      → r ≤ capacity
      → step capacity r ≡ f
      → steps capacity f r ≡ capacity
  full_steps capacity f r h k e = ground (arith, h, k, e)

  room_steps :
      (capacity f r : ℕ)
      → f ≤ capacity
      → r ≤ capacity
      → step capacity r ≢ f
      → (steps capacity f r < capacity)
        × (steps capacity f (step capacity r) ≡ suc (steps capacity f r))
  room_steps capacity f r h k e = ground (arith, h, k, e)

  push_full :
      (q : CircleQueue null) (x : T)
      → ((get_or q.nodes q.rear (outside null)).next == q.front) ≡ true
      → push null q x ≡ (false, q)
  unfolding push
  push_full q x e = rw e refl

  pushed : CircleQueue null → T → CircleQueue null
  pushed q x = record q {
    nodes = set q.nodes q.rear (record (get_or q.nodes q.rear (outside null)) { node = x });
    rear = (get_or q.nodes q.rear (outside null)).next;
  }

  push_room :
      (q : CircleQueue null) (x : T)
      → ((get_or q.nodes q.rear (outside null)).next == q.front) ≡ false
      → push null q x ≡ (true, pushed q x)
  unfolding push pushed
  push_room q x e = rw e refl

  set_linked :
      (nodes : List (CircleNode null)) (r i : ℕ) (x : T)
      → (get_or
          (set nodes r (record (get_or nodes r (outside null)) { node = x }))
          i
          (outside null)).next
        ≡ (get_or nodes i (outside null)).next
  set_linked [] r i x = refl
  set_linked (n ∷ nodes) zero zero x = refl
  set_linked (n ∷ nodes) zero (suc i) x = refl
  set_linked (n ∷ nodes) (suc r) zero x = refl
  set_linked (n ∷ nodes) (suc r) (suc i) x = set_linked nodes r i x

  pushed-IsRing : (q : CircleQueue null) (x : T) → IsRing null q → IsRing null (pushed q x)
  unfolding pushed
  pushed-IsRing q x v = record {
    size = length-set q.nodes q.rear _ ∙ v.size;
    linked = λ i h. set_linked q.nodes q.rear i x ∙ v.linked i h;
    front_inside = v.front_inside;
    rear_inside =
        subst (λ k. k ≤ q.queue_capacity) (sym (v.linked q.rear v.rear_inside))
          (step-bound q.queue_capacity q.rear v.rear_inside);
  }

  contents-pushed :
      (q : CircleQueue null) (x : T)
      → IsRing null q
      → (get_or q.nodes q.rear (outside null)).next ≢ q.front
      → (contents null (pushed q x) ≡ contents null q ++ x ∷ [])
        × (length (contents null q) < q.queue_capacity)
  unfolding pushed
  contents-pushed q x v n =
      let e = v.linked q.rear v.rear_inside in
      let r =
        room_steps q.queue_capacity q.front q.rear v.front_inside v.rear_inside (λ h. n (e ∙ h)) in
      let node = record (get_or q.nodes q.rear (outside null)) { node = x } in
      let k = steps q.queue_capacity q.front q.rear in
      (
        ap
              (λ j.
                slots null q.queue_capacity (set q.nodes q.rear node) q.front
                  (steps q.queue_capacity q.front j))
              e
            ∙ ap (slots null q.queue_capacity (set q.nodes q.rear node) q.front) r.1
            ∙ slots_append null q.queue_capacity (set q.nodes q.rear node) q.front q.rear k
                v.front_inside v.rear_inside refl
            ∙ ap₂ (λ xs y. xs ++ y ∷ [])
                (slots-set null q.queue_capacity q.nodes node q.front q.rear k v.front_inside
                  v.rear_inside refl)
                (ap (λ m. m.node)
                  (get_or-set_self q.nodes q.rear node (outside null)
                    (omega (arith, v.size, v.rear_inside)))),
        omega (arith, r.0, length-slots null q.queue_capacity q.nodes q.front k),
      )

  -- On a ring, `push` answers and works as on a bounded first-in-first-out queue of the ring's
  -- capacity, and leaves a ring.
  pub push-refines :
      (q : CircleQueue null) (x : T)
      → IsRing null q
      → IsRing null (push null q x).1
        × (((push null q x).0, contents null (push null q x).1)
            ≡ offer q.queue_capacity (contents null q) x)
  push-refines q x v = elim (Bool-cases ((get_or q.nodes q.rear (outside null)).next == q.front)) [
    | inl e ↦
        rw (push_full q x e) (v, sym (offer_full q.queue_capacity (contents null q) x (full e)))
    | inr e ↦
        let c = contents-pushed q x v (λ h. absurd (ground (arith, e, h))) in
        rw (push_room q x e) (
          pushed-IsRing q x v,
          ap (λ xs. (true, xs)) c.0 ∙ sym (offer_room q.queue_capacity (contents null q) x c.1),
        )
  ]
    where
      full :
          ((get_or q.nodes q.rear (outside null)).next == q.front) ≡ true
          → length (contents null q) ≡ q.queue_capacity
      full e =
          length-slots null q.queue_capacity q.nodes q.front _
          ∙ full_steps q.queue_capacity q.front q.rear v.front_inside v.rear_inside
              (sym (v.linked q.rear v.rear_inside) ∙ ground (arith, e))
