-- ===== src/Tests/Pointers.antt =====
-- Two objects; the pointer to the first is assigned the second.
use mosito.Base.{◌≡◌, refl, some, ltb, false, [], ◌∷◌}
use mosito.Smart.{Store, start, construct, assign, retain, release}
use mosito.Smart.Counts.{pointers_to, IsCounted, start-IsCounted, construct-IsCounted}
use mosito.Smart.Calls.{
  execute, constructs, assigns, Reaches, here, then_call, execute-IsCounted, Reaches-allocated,
}

abbrev one_object : Store
one_object = construct start

abbrev two_objects : Store
two_objects = construct one_object

two_objects-IsCounted : IsCounted two_objects
two_objects-IsCounted = construct-IsCounted one_object (construct-IsCounted start start-IsCounted)

execute-IsCounted_example :
    (s' : Store) × (execute two_objects (assigns 0 1) ≡ some s') × IsCounted s'
unfolding construct
execute-IsCounted_example =
    execute-IsCounted two_objects (assigns 0 1) two_objects-IsCounted ((0, refl), (1, refl))

-- The first object is not referred to any more.
abbrev after_assign : Store
after_assign = record (release (retain two_objects 1) 0) { pointers = some 1 ∷ some 1 ∷ [] }

after_assign-Reaches : Reaches start after_assign
unfolding construct assign
after_assign-Reaches =
    then_call (assigns 0 1) (then_call constructs (then_call constructs here tt refl) tt refl)
      ((0, refl), (1, refl)) refl

Reaches-allocated_example : after_assign.allocated 0 ≡ ltb 0 (pointers_to 0 after_assign.pointers)
Reaches-allocated_example = Reaches-allocated after_assign 0 after_assign-Reaches

first_object_freed : after_assign.allocated 0 ≡ false
unfolding construct retain release
first_object_freed = refl
