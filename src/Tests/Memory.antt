-- ===== src/Tests/Memory.antt =====
-- An allocator, and small blocks.
use mosito.Base.{ℕ, zero, suc, ◌+◌, ◌≤◌, ◌≡◌, refl, ap, List, [], ◌∷◌, length, arith}
use mosito.Base.Bytes.{read_bytes}
use mosito.Buffer.{Allocator}

-- Memory of the size asked for; what is not kept is 0.
abbrev pub resize : List ℕ → ℕ → List ℕ
resize mem zero = []
resize [] (suc n) = 0 ∷ resize [] n
resize (m ∷ mem) (suc n) = m ∷ resize mem n

pub length-resize : (mem : List ℕ) (n : ℕ) → length (resize mem n) ≡ n
length-resize mem zero = refl
length-resize [] (suc n) = ap suc (length-resize [] n)
length-resize (m ∷ mem) (suc n) = ap suc (length-resize mem n)

pub read-resize :
    (mem : List ℕ) (n o k : ℕ)
    → o + k ≤ length mem
    → o + k ≤ n
    → read_bytes (resize mem n) o k ≡ read_bytes mem o k
unfolding read_bytes
read-resize mem zero zero zero h l = refl
read-resize mem zero zero (suc k) h l = absurd (omega arith)
read-resize mem zero (suc o) k h l = absurd (omega arith)
read-resize [] (suc n) zero zero h l = refl
read-resize [] (suc n) zero (suc k) h l = absurd (omega arith)
read-resize [] (suc n) (suc o) k h l = absurd (omega arith)
read-resize (m ∷ mem) (suc n) zero zero h l = refl
read-resize (m ∷ mem) (suc n) zero (suc k) h l =
    ap (◌∷◌ m) (read-resize mem n zero k (omega arith) (omega arith))
read-resize (m ∷ mem) (suc n) (suc o) k h l = read-resize mem n o k (omega arith) (omega arith)

abbrev pub plain : Allocator
plain = record {
  malloc = resize [];
  realloc = resize;
  length-malloc = length-resize [];
  length-realloc = length-resize;
  realloc-keeps = read-resize;
}
