-- ===== src/SortedBuffer.antt =====
-- src/common/m_pc_buffer.cpp: `get_sorted` merges the columns of a PCBuffer by a tournament. A page is the
-- list of its tuples, for the caller those that `assembling` counts; a column is the list of the pages that come through its queue, in their
-- order, and a page with no tuple is the mark of its end.
pub mod Emits
pub mod Merging
pub mod Pull
pub mod Rounds
pub mod Pages
pub mod Gathered
pub mod Merged
use mosito.Base.{
  ℕ, zero, suc, ◌+◌, ◌-◌, Bool, true, false, Option, none, some, List, [], ◌∷◌, ◌++◌, get_or, set,
  ltb, if◌then◌else◌, ◌==◌,
}
use mosito.Page.{room, assembled}
use mosito.Base.Bytes.{get_u64}
use mosito.LoserTree.{LoserTree, initialize, winner, load, win_tuple, replay}

pub record PcBuffer {ℓ} (T : Type ℓ) : Type ℓ where
  pub row : ℕ
  pub columns : List (List (List T))
  -- What each iterator has still to give.
  pub itrs : List (List T)
  pub lt : LoserTree T
  pub begin : Bool
  pub finished : ℕ

-- `CompareTemp::compare`, on the 8-byte words at offset 8.
unfoldable pub compare_temp : List ℕ → List ℕ → Bool
compare_temp left right = if ltb (get_u64 right 8) (get_u64 left 8) then false else true

-- What is loaded in place of the winner's tuple, if anything is.
pub data Next {ℓ} (T : Type ℓ) : Type ℓ where
  waits : Next T
  over : PcBuffer T → Next T
  loads : T → PcBuffer T → Next T

-- The tuples of the first pages, and what is left; `none` waits for a page for ever.
unfoldable pub first_blocks {ℓ} :
    {T : Type ℓ} → T → List (List (List T)) → Option (List T × List (List T) × List (List (List T)))
first_blocks nothing [] = some ([], [], [])
first_blocks nothing ([] ∷ columns) = none
first_blocks nothing ((page ∷ pages) ∷ columns) = elim (first_blocks nothing columns) [
  | none ↦ none
  | some r ↦ elim page [
    | [] ↦ some (nothing ∷ r.0, [] ∷ r.1, pages ∷ r.2)
    | tuple ∷ left ↦ some (tuple ∷ r.0, left ∷ r.1, pages ∷ r.2)
  ]
]

-- The tuple of a column that has come to its end is `last`, which has the greatest key.
module _ {ℓ} {T : Type ℓ} (compare : T → T → Bool) (nothing : T) (is_null : T → Bool)
    (last : T) where
  -- `b` is the new array of losers as it happens to be.
  unfoldable pub start : List ℕ → PcBuffer T → Option (PcBuffer T)
  unfolding first_blocks
  start b s = elim (first_blocks nothing s.columns) [
    | none ↦ none
    | some r ↦ some (record s {
      itrs = r.1;
      columns = r.2;
      lt = initialize compare nothing (nothing ∷ r.0) s.row b;
      begin = true;
    })
  ]

  -- The next tuple of the winner's column `i`.
  unfoldable pub next_tuple : ℕ → PcBuffer T → Next T
  next_tuple i s = elim (get_or s.itrs i []) [
    | tuple ∷ left ↦ Next.loads tuple (record s { itrs = set s.itrs i left })
    | [] ↦ elim (get_or s.columns i []) [
      | [] ↦ Next.waits
      | page ∷ pages ↦ elim page [
        | [] ↦
            let ended = record s { columns = set s.columns i pages; finished = s.finished + 1 } in
            if ended.finished == s.row then Next.over ended else Next.loads last ended
        | tuple ∷ left ↦
            Next.loads tuple
              (record s { columns = set s.columns i pages; itrs = set s.itrs i left })
      ]
    ]
  ]

  -- The loop, with room for `room` more tuples: the answer, the tuples of the page and the state.
  unfoldable pub fill_from : ℕ → PcBuffer T → List T → Option (Bool × List T × PcBuffer T)
  unfolding next_tuple
  fill_from zero s block = some (true, block, s)
  fill_from (suc room) s block =
      let w = winner compare nothing s.lt in
      let stored = block ++ win_tuple compare nothing s.lt ∷ [] in
      elim (next_tuple (w - 1) s) [
        | waits ↦ none
        | over ended ↦ some (false, [], ended)
        | loads tuple next ↦
            let r = replay compare nothing is_null w (load compare nothing w tuple next.lt) in
            elim (r.0) [
              | zero ↦ fill_from room (record next { lt = r.1 }) stored
              | suc n ↦ some (true, stored, record next { lt = r.1 })
            ]
      ]

  -- `block` is what the caller's block held before. A page that is given is closed by `assembling`, the
  -- last one by the count 0.
  unfoldable pub filled_block :
      ℕ → List T → Option (Bool × List T × PcBuffer T) → Option (Bool × List T × PcBuffer T)
  filled_block tuple_size block none = none
  filled_block tuple_size block (some (false, stored, s)) = some (false, stored, s)
  filled_block tuple_size block (some (true, stored, s)) =
      some (true, assembled tuple_size stored block, s)

  -- The answer, what a reader of the block then gets, and the state.
  unfoldable pub get_sorted : ℕ → List ℕ → List T → PcBuffer T → Option (Bool × List T × PcBuffer T)
  unfolding start fill_from filled_block
  get_sorted tuple_size b block s = elim s.begin [
    | true ↦ filled_block tuple_size block (fill_from (room tuple_size) s [])
    | false ↦ elim (start b s) [
      | none ↦ none
      | some begun ↦ filled_block tuple_size block (fill_from (room tuple_size) begun [])
    ]
  ]

  -- What a caller gets of its block after each call, until the answer is false.
  unfoldable pub gather : ℕ → ℕ → List ℕ → List T → PcBuffer T → Option (List (List T))
  unfolding get_sorted
  gather zero tuple_size b block s = none
  gather (suc fuel) tuple_size b block s = elim (get_sorted tuple_size b block s) [
    | none ↦ none
    | some r ↦ elim (r.0) [
      | false ↦ some []
      | true ↦ elim (gather fuel tuple_size b r.1 r.2) [
        | none ↦ none
        | some pages ↦ some (r.1 ∷ pages)
      ]
    ]
  ]
