-- ===== src/Tests/Projects.antt =====
-- Two pages of numbers, copied into blocks with room for two.
use mosito.Base.{concat, ℕ, ◌≡◌, refl, none, some, [], ◌∷◌, arith}
use mosito.Project.{Project, fill_from, execute, gather}
use mosito.Project.Pages.{IsStored, project-IsStored}

abbrev project : Project ℕ
project = record { child = (1 ∷ 2 ∷ 3 ∷ []) ∷ (4 ∷ 5 ∷ []) ∷ []; buffer_iterator = none }

-- The last tuple is stored by the call that answers false.
copied : gather ℕ 2 6 project ≡ some ((1 ∷ 2 ∷ []) ∷ (3 ∷ 4 ∷ []) ∷ [])
unfolding gather execute fill_from
copied = refl

project-IsStored_example : IsStored ℕ 2 (concat project.child) (gather ℕ 2 6 project)
project-IsStored_example =
    project-IsStored ℕ 2 6 (1 ∷ 2 ∷ 3 ∷ []) ((4 ∷ 5 ∷ []) ∷ []) (omega arith) (omega arith, tt)
      (omega arith)
