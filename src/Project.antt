-- ===== src/Project.antt =====
-- src/physical/m_project.cpp: `Project::execute`, which copies the tuples of its child into pages of its
-- own. No count is written into them; what the model keeps of a block are the tuples that were stored.
-- The child is the list of the pages that it has still to give, and answers false from then on;
-- an iterator is the list of the tuples that it has still to give.
pub mod Pages
use mosito.Base.{ℕ, zero, suc, Bool, true, false, Option, none, some, List, [], ◌∷◌, ◌++◌}

module _ {ℓ} (Tuple : Type ℓ) where
  pub record Project : Type ℓ where
    pub child : List (List Tuple)
    pub buffer_iterator : Option (List Tuple)

  -- The answer and the tuples that were stored into the caller's block; or a null pointer is followed.
  pub data Outcome : Type ℓ where
    answers : Bool → List Tuple → Project → Outcome
    follows_null : Outcome

  -- The loop, with room for `room` more tuples in the block.
  unfoldable pub fill_from : ℕ → List (List Tuple) → Option (List Tuple) → List Tuple → Outcome
  fill_from zero child it block =
      answers true block (record { child = child; buffer_iterator = it })
  fill_from (suc room) [] none block = follows_null
  fill_from (suc room) (page ∷ pages) none block = fill_from (suc room) pages (some page) block
  fill_from (suc room) child (some (tuple ∷ tuples)) block =
      fill_from room child (some tuples) (block ++ tuple ∷ [])
  fill_from (suc room) [] (some []) block =
      answers false block (record { child = []; buffer_iterator = some [] })
  fill_from (suc room) ([] ∷ pages) (some []) block = follows_null
  fill_from (suc room) ((tuple ∷ tuples) ∷ pages) (some []) block =
      fill_from room pages (some tuples) (block ++ tuple ∷ [])

  unfoldable pub execute : ℕ → Project → Outcome
  unfolding fill_from
  execute room p = fill_from room p.child p.buffer_iterator []

  -- `while (execute(block))`: the tuples that each call stored which answers true; none when a null
  -- pointer is followed or the fuel ends.
  unfoldable pub gather : ℕ → ℕ → Project → Option (List (List Tuple))
  unfolding execute
  gather room zero p = none
  gather room (suc fuel) p = elim (execute room p) [
    | follows_null ↦ none
    | answers false block q ↦ some []
    | answers true block q ↦ elim (gather room fuel q) [
      | none ↦ none
      | some pages ↦ some (block ∷ pages)
    ]
  ]
