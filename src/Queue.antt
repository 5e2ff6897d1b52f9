-- ===== src/Queue.antt =====
-- src/common/m_circle_queue.h (`BlockCircleQueue`) and the queue operations of m_pc_buffer.cpp. Each
-- block of a queue stands in one of its two lists, so the lists hold the blocks themselves. A call
-- runs under the queue's lock and is one step.
pub mod Fifo
pub mod Retry
pub mod Run
use mosito.Base.{ℕ, zero, suc, Bool, true, false, List, [], ◌∷◌, ◌++◌, replicate, get_or, set}
use mosito.Buffer.{Block, Allocator, create, store_block}

-- BLOCK_SIZE, 64*1024.
abbrev pub block_size : ℕ
block_size = 65536

pub record BlockCircleQueue : Type 0 where
  pub queue_capacity : ℕ
  pub emptys : List Block
  pub blocks : List Block

-- The constructor. `Block(BLOCK_SIZE)` leaves the tuple size as it finds it.
unfoldable pub create_queue : Allocator → ℕ → ℕ → BlockCircleQueue
unfolding create
create_queue a junk capacity = record {
  queue_capacity = capacity;
  emptys = replicate capacity (create a block_size junk);
  blocks = [];
}

unfoldable pub push : BlockCircleQueue → Block → Bool × BlockCircleQueue
unfolding store_block
push q node = elim q.emptys [
  | [] ↦ (false, q)
  | bk ∷ rest ↦ (
    true,
    record q { emptys = rest; blocks = q.blocks ++ store_block bk node.mem block_size ∷ [] },
  )
]

-- `pop(block)` copies into the caller's block, which is the second part of the result.
unfoldable pub pop : BlockCircleQueue → Block → Bool × Block × BlockCircleQueue
unfolding store_block
pop q block = elim q.blocks [
  | [] ↦ (false, block, q)
  | bk ∷ rest ↦ (
    true,
    store_block block bk.mem block_size,
    record q { emptys = q.emptys ++ bk ∷ []; blocks = rest },
  )
]

-- The loop of `PCBuffer::put` on a column. It gives up after the failure at which `seconds_` is 10;
-- `left` counts the attempts after this one. `others left` is what the other threads do to the queue
-- in the gap before the last `left + 1` attempts.
module _ (others : ℕ → BlockCircleQueue → BlockCircleQueue) where
  unfoldable pub put_from : ℕ → BlockCircleQueue → Block → Bool × BlockCircleQueue
  put_from zero q block = push q block
  put_from (suc left) q block = elim (push q block).0 [
    | true ↦ push q block
    | false ↦ put_from left (others left q) block
  ]

  unfoldable pub get_from : ℕ → BlockCircleQueue → Block → Bool × Block × BlockCircleQueue
  get_from zero q block = pop q block
  get_from (suc left) q block = elim (pop q block).0 [
    | true ↦ pop q block
    | false ↦ get_from left (others left q) block
  ]

  -- `put` and `get` of a PCBuffer, on its columns; there is always a queue at `column`.
  unfoldable pub put :
      BlockCircleQueue → List BlockCircleQueue → Block → ℕ → Bool × List BlockCircleQueue
  put none_there columns block column =
      let (done, q) = put_from 10 (get_or columns column none_there) block in
      (done, set columns column q)

  unfoldable pub get :
      BlockCircleQueue → List BlockCircleQueue → Block → ℕ → Bool × Block × List BlockCircleQueue
  get none_there columns block column =
      let (done, out, q) = get_from 10 (get_or columns column none_there) block in
      (done, out, set columns column q)
