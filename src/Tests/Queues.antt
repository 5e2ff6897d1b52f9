-- ===== src/Tests/Queues.antt =====
-- A queue of one block.
use mosito.Base.{ℕ, ◌≡◌, Bool, List, [], ◌∷◌, arith, ◌==◌, if◌then◌else◌, get_or, set}
use mosito.Buffer.{Block, create}
use mosito.Queue.{BlockCircleQueue, block_size, create_queue, push, pop, put}
use mosito.Queue.Fifo.{IsPage, IsValid, contents, create_queue-IsValid}
use mosito.Queue.Run.{Call, pushes, pops, run, run_spec, run-refines}
use mosito.Queue.Retry.{FirstRoom, put-FirstRoom}
use mosito.Tests.Memory.{plain}

abbrev one_block : BlockCircleQueue
one_block = create_queue plain 0 1

abbrev a_page : Block
a_page = create plain block_size 8

a_page-IsPage : IsPage a_page
unfolding create
a_page-IsPage = plain.length-malloc block_size

-- The second push finds the queue full; the second pop finds it empty.
abbrev calls : List Call
calls = pops a_page ∷ pushes a_page ∷ pushes a_page ∷ pops a_page ∷ []

run-refines_example :
    IsValid (run one_block calls).1
    × (((run one_block calls).0, contents (run one_block calls).1)
        ≡ run_spec one_block.queue_capacity (contents one_block) calls)
run-refines_example = run-refines one_block calls (create_queue-IsValid plain 0 1) (
  a_page-IsPage,
  (omega (arith, a_page-IsPage), (omega (arith, a_page-IsPage), (a_page-IsPage, tt))),
)

-- Nothing happens in the first gap; another thread pops a page in the second.
abbrev late_pop : ℕ → BlockCircleQueue → BlockCircleQueue
late_pop left q = if left == 8 then (pop q a_page).2 else q

abbrev full : BlockCircleQueue
full = (push one_block a_page).1

put-FirstRoom_example :
    (r : Bool × BlockCircleQueue) × FirstRoom late_pop 10 (get_or (full ∷ []) 0 full) a_page r
    × (put late_pop full (full ∷ []) a_page 0 ≡ (r.0, set (full ∷ []) 0 r.1))
put-FirstRoom_example = put-FirstRoom late_pop full (full ∷ []) a_page 0
