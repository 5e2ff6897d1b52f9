-- ===== src/Tests/Rings.antt =====
-- A ring of two entries, which are numbers; 0 is the null entry.
use mosito.Base.{ℕ, ◌≡◌, refl, none, [], ◌∷◌, arith}
use mosito.Ring.{CircleQueue, create_circle_queue, nodes_from, push, pop, add_into_thread_pool}
use mosito.Ring.Fifo.{IsRing, contents, offer, poll, create_circle_queue-IsRing}
use mosito.Ring.Push.{push-refines}
use mosito.Ring.Pop.{pop-refines}
use mosito.Ring.Pool.{add_into_thread_pool_stuck}

abbrev null_entry : ℕ
null_entry = 0

abbrev new_ring : CircleQueue null_entry
new_ring = create_circle_queue null_entry 2

abbrev ring_of_7 : CircleQueue null_entry
ring_of_7 = (push null_entry new_ring 7).1

abbrev full_ring : CircleQueue null_entry
full_ring = (push null_entry ring_of_7 8).1

new_ring-IsRing : IsRing null_entry new_ring
new_ring-IsRing = (create_circle_queue-IsRing null_entry 2 (omega arith)).0

ring_of_7-IsRing : IsRing null_entry ring_of_7
ring_of_7-IsRing = (push-refines null_entry new_ring 7 new_ring-IsRing).0

full_ring-IsRing : IsRing null_entry full_ring
full_ring-IsRing = (push-refines null_entry ring_of_7 8 ring_of_7-IsRing).0

push-refines_example :
    IsRing null_entry (push null_entry full_ring 9).1
    × (((push null_entry full_ring 9).0, contents null_entry (push null_entry full_ring 9).1)
        ≡ offer full_ring.queue_capacity (contents null_entry full_ring) 9)
push-refines_example = push-refines null_entry full_ring 9 full_ring-IsRing

pop-refines_example :
    IsRing null_entry (pop null_entry full_ring).1
    × (((pop null_entry full_ring).0, contents null_entry (pop null_entry full_ring).1)
        ≡ poll null_entry (contents null_entry full_ring))
pop-refines_example = pop-refines null_entry full_ring full_ring-IsRing

full_contents : contents null_entry full_ring ≡ 7 ∷ 8 ∷ []
unfolding push create_circle_queue nodes_from
full_contents = refl

add_into_thread_pool_stuck_example : add_into_thread_pool null_entry 5 full_ring 9 ≡ none
unfolding push create_circle_queue nodes_from
add_into_thread_pool_stuck_example =
    add_into_thread_pool_stuck null_entry 5 full_ring 9 full_ring-IsRing (omega arith)
