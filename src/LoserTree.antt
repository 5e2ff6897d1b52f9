-- ===== src/LoserTree.antt =====
-- src/common/m_trees.h and m_trees.cpp: the tournament of n players, whose tuples are `l[1]` to `l[n]`.
-- `b[0]` is the winner and `b[p]` the loser of the match at node `p`. What is read outside of an array
-- is `nothing`, and `is_null` is the test of a tuple pointer for 0.
pub mod Above
pub mod Won
pub mod Children
pub mod Climb
pub mod Replay
pub mod Rising
pub mod Places
pub mod Turns
pub mod Done
pub mod Levels
pub mod Initialize
use mosito.Base.{
  ℕ, zero, suc, ◌+◌, ◌-◌, ◌*◌, ◌/◌, ◌%◌, Bool, true, false, not, ◌&&◌, List, get_or, set, ltb, leb,
  if◌then◌else◌, ◌==◌,
}

pub record LoserTree {ℓ} (T : Type ℓ) : Type ℓ where
  pub n : ℕ
  pub low_ext : ℕ
  pub offset : ℕ
  pub b : List ℕ
  pub l : List T

-- The node of player `i`.
unfoldable pub leaf : ℕ → ℕ → ℕ → ℕ → ℕ
leaf n low_ext offset i = if leb i low_ext then i + offset else i - low_ext + n - 1

-- `for(s=1;2*s<=n-1;s+=s);`
unfoldable pub double_from : ℕ → ℕ → ℕ → ℕ
double_from zero n s = s
double_from (suc fuel) n s = elim (leb (2 * s) (n - 1)) [
  | true ↦ double_from fuel n (s + s)
  | false ↦ s
]

module _ {ℓ} {T : Type ℓ} (compare : T → T → Bool) (nothing : T) where
  unfoldable pub win : List T → ℕ → ℕ → ℕ
  win a left right =
      if compare (get_or a left nothing) (get_or a right nothing) then left else right

  unfoldable pub lose : List T → ℕ → ℕ → ℕ
  lose a left right =
      if not (compare (get_or a left nothing) (get_or a right nothing)) then left else right

  -- The loop of `play` from node `p` on, whose winner is `temp1`, and the write behind it.
  unfoldable pub play_from : ℕ → List T → ℕ → ℕ → List ℕ → List ℕ
  play_from zero l p temp1 b = set b (p / 2) temp1
  play_from (suc fuel) l p temp1 b = elim (ltb 1 p && (p % 2 == 1)) [
    | true ↦
        play_from fuel l (p / 2) (win l temp1 (get_or b (p / 2) 0))
          (set b (p / 2) (lose l temp1 (get_or b (p / 2) 0)))
    | false ↦ set b (p / 2) temp1
  ]

  -- The node is halved in every round, so `p` rounds are enough.
  unfoldable pub play : List T → ℕ → ℕ → ℕ → List ℕ → List ℕ
  play l p left right b = play_from p l p (win l left right) (set b p (lose l left right))

  -- The loop of `initialize` over the leaves of the lowest level.
  unfoldable pub play_low : ℕ → List T → ℕ → ℕ → ℕ → List ℕ → List ℕ
  play_low zero l low_ext offset i b = b
  play_low (suc fuel) l low_ext offset i b = elim (leb i low_ext) [
    | true ↦ play_low fuel l low_ext offset (i + 2) (play l ((i + offset) / 2) (i - 1) i b)
    | false ↦ b
  ]

  -- The loop over the other leaves.
  unfoldable pub play_high : ℕ → List T → ℕ → ℕ → ℕ → List ℕ → List ℕ
  play_high zero l low_ext n i b = b
  play_high (suc fuel) l low_ext n i b = elim (leb i n) [
    | true ↦ play_high fuel l low_ext n (i + 2) (play l ((i - low_ext + n - 1) / 2) (i - 1) i b)
    | false ↦ b
  ]

  -- `b` is the new array as it happens to be. A loop has at most one round for each player.
  unfoldable pub initialize : List T → ℕ → List ℕ → LoserTree T
  unfolding double_from play_low play_high play
  initialize a size b =
      let s = double_from size size 1 in
      let low_ext = 2 * (size - s) in
      let offset = 2 * s - 1 in
      let low = play_low size a low_ext offset 2 b in
      record {
        n = size;
        low_ext = low_ext;
        offset = offset;
        l = a;
        b =
            if size % 2 == 1
            then play_high size a low_ext size (low_ext + 3)
                (play a (size / 2) (get_or low ((size - 1) / 2) 0) (low_ext + 1) low)
            else play_high size a low_ext size (low_ext + 2) low;
      }

  unfoldable pub winner : LoserTree T → ℕ
  winner t = get_or t.b 0 0

  unfoldable pub load : ℕ → T → LoserTree T → LoserTree T
  load win new_one t = record t { l = set t.l win new_one }

  unfoldable pub win_tuple : LoserTree T → T
  win_tuple t = get_or t.l (get_or t.b 0 0) nothing

  -- A round of the loop of `replay`, at node `q`.
  unfoldable pub replay_at : List T → ℕ → List ℕ → List ℕ
  replay_at l q b =
      set (set b q (lose l (get_or b q 0) (get_or b 0 0))) 0 (win l (get_or b q 0) (get_or b 0 0))

  unfoldable pub replay_from : ℕ → List T → ℕ → List ℕ → List ℕ
  unfolding replay_at
  replay_from zero l p b = b
  replay_from (suc fuel) l p b = elim (leb 1 (p / 2)) [
    | true ↦ replay_from fuel l (p / 2) (replay_at l (p / 2) b)
    | false ↦ b
  ]

  module _ (is_null : T → Bool) where
    -- The answer, and the tree. `b[p]` is read after the write of `b[0]`.
    unfoldable pub replay : ℕ → LoserTree T → ℕ × LoserTree T
    unfolding replay_from leaf
    replay i t =
        let p = leaf t.n t.low_ext t.offset i / 2 in
        let first = set t.b 0 (win t.l i (get_or t.b p 0)) in
        let b = replay_from p t.l p (set first p (lose t.l i (get_or first p 0))) in
        ((if is_null (get_or t.l (get_or b 0 0) nothing) then 1 else 0), record t { b = b })
