-- ===== src/Tests/Barriers.antt =====
-- Three threads at a barrier of three, of which the first is woken too early.
use mosito.Base.{◌≡◌, refl, arith}
use mosito.Barrier.{Barrier, create_barrier, arrive, wake}
use mosito.Barrier.Passing.{Steps, here, arrives, wakes, Passing, Steps-Passing}

abbrev two_arrived : Barrier
two_arrived = arrive (wake (arrive (create_barrier 3)))

two_arrived-Steps : Steps (create_barrier 3) 2 1 two_arrived
unfolding arrive create_barrier
two_arrived-Steps = arrives (wakes (arrives here) (omega arith))

Steps-Passing_example : Passing 3 2 1 two_arrived
Steps-Passing_example = Steps-Passing 3 2 1 two_arrived two_arrived-Steps

third_opens : (arrive two_arrived).passed ≡ 3
unfolding arrive wake create_barrier
third_opens = refl
