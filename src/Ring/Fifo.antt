-- ===== src/Ring/Fifo.antt =====
-- The ring is a bounded first-in-first-out queue.
use mosito.Base.{
  ℕ, zero, suc, ◌+◌, ◌≤◌, ◌<◌, ◌≡◌, refl, ap, ap₂, ◌∙◌, Bool, true, false, List, [], ◌∷◌, ◌++◌,
  length, get_or, ltb, if◌then◌else◌, arith,
}
use mosito.Ring.{CircleQueue, outside, nodes_from, create_circle_queue}
use mosito.Ring.Slots.{step, steps, slots}

-- The specification: at most `capacity` entries, oldest first; an empty queue gives the null entry.
module _ {ℓ} {T : Type ℓ} where
  abbrev pub offer : ℕ → List T → T → Bool × List T
  offer capacity xs x = if ltb (length xs) capacity then (true, xs ++ x ∷ []) else (false, xs)

  abbrev pub poll : T → List T → T × List T
  poll null [] = (null, [])
  poll null (x ∷ xs) = (x, xs)

module _ {ℓ} {T : Type ℓ} (null : T) where
  -- The nodes make a ring, and both ends are in it.
  pub record IsRing (q : CircleQueue null) : Type ℓ where
    pub size : length q.nodes ≡ suc q.queue_capacity
    pub linked :
        (i : ℕ)
        → i ≤ q.queue_capacity
        → (get_or q.nodes i (outside null)).next ≡ step q.queue_capacity i
    pub front_inside : q.front ≤ q.queue_capacity
    pub rear_inside : q.rear ≤ q.queue_capacity

  abbrev pub contents : CircleQueue null → List T
  contents q = slots null q.queue_capacity q.nodes q.front (steps q.queue_capacity q.front q.rear)

  nodes_from_length : (left i : ℕ) → length (nodes_from null left i) ≡ suc left
  unfolding nodes_from
  nodes_from_length zero i = refl
  nodes_from_length (suc left) i = ap suc (nodes_from_length left (suc i))

  nodes_from_linked :
      (left i k : ℕ)
      → 0 < i + left
      → k ≤ left
      → (get_or (nodes_from null left i) k (outside null)).next ≡ step (i + left) (i + k)
  unfolding nodes_from
  nodes_from_linked zero i zero o h = ground arith
  nodes_from_linked zero i (suc k) o h = absurd (omega arith)
  nodes_from_linked (suc left) i zero o h = ground arith
  nodes_from_linked (suc left) i (suc k) o h =
      nodes_from_linked left (suc i) k (omega arith) (omega arith)
      ∙ ap₂ step (omega arith) (omega arith)

  -- A new queue is an empty ring, whatever its capacity, as long as it is not 0.
  pub create_circle_queue-IsRing :
      (capacity : ℕ)
      → 0 < capacity
      → IsRing (create_circle_queue null capacity)
        × (contents (create_circle_queue null capacity) ≡ [])
  unfolding create_circle_queue
  create_circle_queue-IsRing capacity h = (
    record {
      size = nodes_from_length capacity 0;
      linked = λ i l.
          nodes_from_linked capacity 0 i (omega arith) l ∙ ap₂ step (omega arith) (omega arith);
      front_inside = omega arith;
      rear_inside = omega arith;
    },
    refl,
  )
