-- ===== src/Matching.antt =====
-- src/analysis/m_km.cpp and m_km.h: the matching of `KM::find` and `KM::LM`. The nodes of each side are 1 to `n`,
-- `map` is the matrix of the edges. Place 0 of `vis_` and `link1_` is there and not used.
pub mod Calls
pub mod Keeps
pub mod Fuel
pub mod Closed
pub mod Matched
pub mod Largest
use mosito.Base.{
  ℕ, zero, suc, ◌+◌, Bool, true, false, not, ◌&&◌, List, [], ◌∷◌, length, get_or, set, replicate,
  ◌==◌, if◌then◌else◌,
}

pub record Marks : Type 0 where
  pub vis : List Bool
  pub link1 : List ℕ

-- MAXN: `map` has that many rows and columns, `vis` and `link1` that many places.
abbrev pub max_n : ℕ
max_n = 310

abbrev pub seen : Marks → ℕ → Bool
seen s i = get_or s.vis i false

abbrev pub partner : Marks → ℕ → ℕ
partner s i = get_or s.link1 i 0

-- `vis[i]=1`
abbrev pub mark : Marks → ℕ → Marks
mark s i = record s { vis = set s.vis i true }

-- `link1[i]=x`
abbrev pub claim : Marks → ℕ → ℕ → Marks
claim s i x = record s { link1 = set s.link1 i x }

-- `map[x][y]=1`, for the pairs that `LM` reads.
abbrev pub read_edges : (ℕ → ℕ → Bool) → List (ℕ × ℕ) → ℕ → ℕ → Bool
read_edges map [] a b = map a b
read_edges map (e ∷ edges) a b =
    read_edges (λ x y. if (x == e.0) && (y == e.1) then true else map x y) edges a b

module _ (map : ℕ → ℕ → Bool) (n : ℕ) where
  -- The loop of `find` from `i` on, `k` rounds of which are left, with `again` for the call of itself.
  unfoldable pub find_from : (ℕ → Marks → Bool × Marks) → ℕ → ℕ → ℕ → Marks → Bool × Marks
  find_from again x i zero s = (false, s)
  find_from again x i (suc k) s = elim (map x i && not (seen s i)) [
    | false ↦ find_from again x (i + 1) k s
    | true ↦ elim (partner s i == 0) [
      | true ↦ (true, claim (mark s i) i x)
      | false ↦
          let r = again (partner s i) (mark s i) in
          elim (r.0) [ true ↦ (true, claim r.1 i x) | false ↦ find_from again x (i + 1) k r.1 ]
    ]
  ]

  unfoldable pub find_fuel : ℕ → ℕ → Marks → Bool × Marks
  unfolding find_from
  find_fuel zero x s = (false, s)
  find_fuel (suc fuel) x s = find_from (find_fuel fuel) x 1 n s

  -- Every call of itself comes with one more of the `n + 1` places marked.
  unfoldable pub find : ℕ → Marks → Bool × Marks
  find x s = find_fuel (n + 2) x s

  -- The loop of `LM` from `i` on: the count `s`, and the links.
  unfoldable pub match_from : ℕ → ℕ → ℕ → List ℕ → ℕ × List ℕ
  match_from i zero s link1 = (s, link1)
  match_from i (suc k) s link1 =
      let r = find i (record { vis = replicate (n + 1) false; link1 = link1 }) in
      match_from (i + 1) k (if r.0 then s + 1 else s) r.1.link1

-- `LM` with the `n` that it reads and the `n` pairs that follow: its answer, and the count and the
-- links that it prints. It does not test them against MAXN.
unfoldable pub largest_matching : (ℕ → ℕ → Bool) → ℕ → List (ℕ × ℕ) → List ℕ → ℕ × ℕ × List ℕ
unfolding match_from
largest_matching map n edges link1 =
    let (s, links) = match_from (read_edges map edges) n 1 n 0 link1 in (0, s, links)
