-- ===== src/Matching/Largest.antt =====
-- src/analysis/m_km.cpp: `LM` finds a largest matching.
use mosito.Base.{All, length, ℕ, ◌+◌, ◌≤◌, ◌<◌, ◌≡◌, Bool, false, List, replicate, ◌==◌}
use mosito.Heap.Same.{count}
use mosito.Matching.{Marks, max_n}
use mosito.Matching.Closed.{IsClosed}
use mosito.Matching.Matched.{matched, IsMatching, Settled}

module _ (map : ℕ → ℕ → Bool) (n : ℕ) where
  abbrev fresh : List ℕ → Marks
  fresh link1 = record { vis = replicate (n + 1) false; link1 = link1 }

  -- Before the round for `i`: the links are a matching of the left nodes below `i`, and the edges of
  -- those of them that are not linked end in a closed set.
  record IsGood (i s : ℕ) (link1 : List ℕ) : Type 0 where
    pub matching : IsMatching map n link1
    pub counted : s ≡ matched n link1
    pub pending : (z : ℕ) → 0 < z → i ≤ z → count (λ x. x == z) link1 ≡ 0
    pub set : ℕ → Bool
    pub closed : IsClosed map n set link1
    pub settled : (z : ℕ) → 0 < z → z < i → Settled map n set link1 z

-- An `n` and pairs for which `LM` stays inside of its arrays.
pub record IsInput (n : ℕ) (edges : List (ℕ × ℕ)) : Type 0 where
  pub size : n < max_n
  pub pairs : length edges ≡ n
  pub ends : All (λ e. (e.0 < max_n) × (e.1 < max_n)) edges
