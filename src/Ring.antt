-- ===== src/Ring.antt =====
-- src/common/m_circle_queue.h (`CircleQueue`) and the way m_thread_pool.cpp uses it. The nodes of the
-- ring are a list, and pointers to them are positions in it; the extra node `head_` only leads to the
-- first. `null` is the null pointer among the entries. A call runs under the queue's lock.
pub mod Slots
pub mod Fifo
pub mod Push
pub mod Pop
pub mod Pool
use mosito.Base.{
  ℕ, zero, suc, ◌+◌, Bool, true, false, Option, none, some, List, [], ◌∷◌, get_or, set, ◌==◌,
  if◌then◌else◌,
}

module _ {ℓ} {T : Type ℓ} (null : T) where
  pub record CircleNode : Type ℓ where
    pub node : T
    pub next : ℕ

  pub record CircleQueue : Type ℓ where
    pub queue_capacity : ℕ
    pub nodes : List CircleNode
    pub front : ℕ
    pub rear : ℕ

  -- What is read through a pointer to no node.
  abbrev pub outside : CircleNode
  outside = record { node = null; next = 0 }

  -- The constructor's loop at node `i` with `left` nodes behind it. The last node points to the first
  -- one; the only node of a queue of capacity 0 keeps the null pointer, which is the position behind.
  unfoldable pub nodes_from : ℕ → ℕ → List CircleNode
  nodes_from zero i = record { node = null; next = if i == 0 then 1 else 0 } ∷ []
  nodes_from (suc left) i = record { node = null; next = suc i } ∷ nodes_from left (suc i)

  unfoldable pub create_circle_queue : ℕ → CircleQueue
  unfolding nodes_from
  create_circle_queue capacity = record {
    queue_capacity = capacity;
    nodes = nodes_from capacity 0;
    front = 0;
    rear = 0;
  }

  unfoldable pub push : CircleQueue → T → Bool × CircleQueue
  push q entry =
      let n = get_or q.nodes q.rear outside in
      if n.next == q.front then (false, q) else (
        true,
        record q { nodes = set q.nodes q.rear (record n { node = entry }); rear = n.next },
      )

  unfoldable pub pop : CircleQueue → T × CircleQueue
  pop q =
      let n = get_or q.nodes q.front outside in
      if q.rear == q.front then (null, q) else (n.node, record q { front = n.next })

  unfoldable pub is_empty : CircleQueue → Bool
  is_empty q = q.rear == q.front

  -- `add_into_thread_pool` holds the lock of the pool, which a worker needs to take a task, in all its
  -- rounds; `none` says that the fuel ran out.
  unfoldable pub add_into_thread_pool : ℕ → CircleQueue → T → Option CircleQueue
  unfolding push
  add_into_thread_pool zero q task = none
  add_into_thread_pool (suc fuel) q task =
      let again = add_into_thread_pool fuel q task in
      if (push q task).0 then some (push q task).1 else again

  -- A worker that holds the lock: it waits while the queue is empty, which is `none`, and takes the
  -- task that it will run.
  unfoldable pub take_task : CircleQueue → Option (T × CircleQueue)
  unfolding pop is_empty
  take_task q = if is_empty q then none else some (pop q)
