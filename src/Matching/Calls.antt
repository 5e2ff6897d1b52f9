-- ===== src/Matching/Calls.antt =====
-- src/analysis/m_km.cpp: the calls of `find` that come to an end, and how they do.
use mosito.Base.{ℕ, zero, suc, ◌+◌, ◌≡◌, ◌≢◌, Bool, true, false, not, ◌&&◌}
use mosito.Matching.{Marks, seen, partner, mark, claim}

-- `From x i k s b t`: the loop for `x` with `k` rounds left from `i` on answers `b` and leads from `s`
-- to `t`.
pub data From (map : ℕ → ℕ → Bool) (n : ℕ) : ℕ → ℕ → ℕ → Marks → Bool → Marks → Type 0 where
  ends : {x i : ℕ} {s : Marks} → From map n x i zero s false s
  skips :
      {x i k : ℕ} {s t : Marks} {b : Bool}
      → (map x i && not (seen s i)) ≡ false
      → From map n x (i + 1) k s b t
      → From map n x i (suc k) s b t
  takes :
      {x i k : ℕ} {s : Marks}
      → (map x i && not (seen s i)) ≡ true
      → partner s i ≡ 0
      → From map n x i (suc k) s true (claim (mark s i) i x)
  moves :
      {x i k : ℕ} {s t : Marks}
      → (map x i && not (seen s i)) ≡ true
      → partner s i ≢ 0
      → From map n (partner s i) 1 n (mark s i) true t
      → From map n x i (suc k) s true (claim t i x)
  fails :
      {x i k : ℕ} {s t u : Marks} {b : Bool}
      → (map x i && not (seen s i)) ≡ true
      → partner s i ≢ 0
      → From map n (partner s i) 1 n (mark s i) false t
      → From map n x (i + 1) k t b u
      → From map n x i (suc k) s b u
