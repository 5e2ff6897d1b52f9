-- ===== src/Queue/Run.antt =====
-- Any sequence of calls on a block queue answers like the specification.
use mosito.Base.{
  ℕ, ◌≤◌, ◌≡◌, refl, ap, ap₂, ◌∙◌, Bool, List, [], ◌∷◌, length, take, Option, none, some,
  if◌then◌else◌, All,
}
use mosito.Buffer.{Block}
use mosito.Queue.{BlockCircleQueue, block_size, push, pop}
use mosito.Queue.Fifo.{IsPage, IsValid, offer, poll, contents, push-Pushed, pop-Popped}

pub data Call : Type 0 where
  pushes : Block → Call
  pops : Block → Call

-- Whether a push was done, and what page a pop has copied.
pub data Answer : Type 0 where
  done : Bool → Answer
  page : Option (List ℕ) → Answer

-- The blocks of the callers are at least a page, and those that a pop fills are one page.
abbrev pub Sized : Call → Type 0
Sized (pushes b) = block_size ≤ length b.mem
Sized (pops b) = IsPage b

abbrev pub run : BlockCircleQueue → List Call → List Answer × BlockCircleQueue
run q [] = ([], q)
run q (pushes b ∷ cs) = (done (push q b).0 ∷ (run (push q b).1 cs).0, (run (push q b).1 cs).1)
run q (pops b ∷ cs) = (
  page (if (pop q b).0 then some (pop q b).1.mem else none) ∷ (run (pop q b).2 cs).0,
  (run (pop q b).2 cs).1,
)

abbrev pub run_spec : ℕ → List (List ℕ) → List Call → List Answer × List (List ℕ)
run_spec capacity ps [] = ([], ps)
run_spec capacity ps (pushes b ∷ cs) =
    let r = offer capacity ps (take block_size b.mem) in
    (done r.0 ∷ (run_spec capacity r.1 cs).0, (run_spec capacity r.1 cs).1)
run_spec capacity ps (pops b ∷ cs) =
    let r = poll ps in (page r.0 ∷ (run_spec capacity r.1 cs).0, (run_spec capacity r.1 cs).1)

-- Every sequence of pushes and pops answers as a bounded first-in-first-out queue of pages does, and
-- leaves the queue valid with the pages that the specification has left.
pub run-refines :
    (q : BlockCircleQueue) (cs : List Call)
    → IsValid q
    → All Sized cs
    → IsValid (run q cs).1
      × (((run q cs).0, contents (run q cs).1) ≡ run_spec q.queue_capacity (contents q) cs)
run-refines q [] v s = (v, refl)
run-refines q (pushes b ∷ cs) v (s, ss) =
    let p = push-Pushed q b v s in
    let ih = run-refines (push q b).1 cs p.valid ss in
    (
      ih.0,
      ap (λ r. (done (push q b).0 ∷ r.0, r.1))
            (ih.1 ∙ ap₂ (λ c ps. run_spec c ps cs) p.same_capacity (ap (λ r. r.1) p.refines))
          ∙ ap
              (λ a. (
                done a
                    ∷ (run_spec q.queue_capacity
                        (offer q.queue_capacity (contents q) (take block_size b.mem)).1 cs).0,
                (run_spec q.queue_capacity
                    (offer q.queue_capacity (contents q) (take block_size b.mem)).1 cs).1,
              ))
              (ap (λ r. r.0) p.refines),
    )
run-refines q (pops b ∷ cs) v (s, ss) =
    let p = pop-Popped q b v s in
    let ih = run-refines (pop q b).2 cs p.valid ss in
    (
      ih.0,
      ap (λ r. (page (if (pop q b).0 then some (pop q b).1.mem else none) ∷ r.0, r.1))
            (ih.1 ∙ ap₂ (λ c ps. run_spec c ps cs) p.same_capacity (ap (λ r. r.1) p.refines))
          ∙ ap
              (λ a. (
                page a ∷ (run_spec q.queue_capacity (poll (contents q)).1 cs).0,
                (run_spec q.queue_capacity (poll (contents q)).1 cs).1,
              ))
              (ap (λ r. r.0) p.refines),
    )
