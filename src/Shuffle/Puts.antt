-- ===== src/Shuffle/Puts.antt =====
-- src/physical/m_shuffle_lower1.cpp: the pages that were put from one buffer.
use mosito.Base.{
  ℕ, ◌/◌, ◌≡◌, ◌≢◌, refl, ap, Bool, true, false, ◌&&◌, Option, none, some, List, [], ◌∷◌, ◌++◌,
  ◌==◌, if◌then◌else◌, arith, Bool-cases, inl, inr,
}
use mosito.Configuration.{cpu_core}
use mosito.Shuffle.{Tuple, Put}

abbrev is_source : ℕ → Option ℕ → Bool
is_source i none = false
is_source i (some j) = i == j

-- `buffers_[i]` was put into the column of its range.
abbrev is_put : ℕ → ℕ → Put → Bool
is_put seqs i p = is_source i p.source && (p.column == i / (cpu_core / seqs))

-- The pages of these puts.
abbrev pub pages_from : ℕ → ℕ → List Put → List (List Tuple)
pages_from seqs i [] = []
pages_from seqs i (p ∷ ps) =
    if is_put seqs i p then p.page ∷ pages_from seqs i ps else pages_from seqs i ps

pub pages_from-append :
    (seqs i : ℕ) (ps qs : List Put)
    → pages_from seqs i (ps ++ qs) ≡ pages_from seqs i ps ++ pages_from seqs i qs
pages_from-append seqs i [] qs = refl
pages_from-append seqs i (p ∷ ps) qs = elim (Bool-cases (is_put seqs i p)) [
  | inl e ↦ rw e (ap (◌∷◌ p.page) (pages_from-append seqs i ps qs))
  | inr e ↦ rw e (pages_from-append seqs i ps qs)
]

module _ (seqs : ℕ) where
  abbrev pub put_of : ℕ → List Tuple → Put
  put_of j page = record { source = some j; column = j / (cpu_core / seqs); page = page }

  pub put_here : (j : ℕ) (page : List Tuple) → pages_from seqs j (put_of j page ∷ []) ≡ page ∷ []
  put_here j page =
      let same : ((j == j) && ((j / (cpu_core / seqs)) == (j / (cpu_core / seqs)))) ≡ true =
        ground arith in
      rw same refl

  pub put_there :
      (j i : ℕ) (page : List Tuple) → j ≢ i → pages_from seqs i (put_of j page ∷ []) ≡ []
  put_there j i page d = let other : (i == j) ≡ false = ground arith in rw other refl
