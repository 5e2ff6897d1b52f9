-- ===== src/Shuffle/Columns.antt =====
-- src/physical/m_shuffle_lower1.cpp: the column of a range, when the nodes share the cores evenly.
use mosito.Base.{
  ◌⊎◌, ℕ, zero, suc, ◌/◌, ◌<◌, ◌≡◌, refl, sym, subst, false, some, ◌==◌, arith, inl, inr,
}
use mosito.Configuration.{cpu_core}
use mosito.Shuffle.{column_of}

-- The counts of nodes that CPU_CORE is shared among without a rest.
abbrev pub IsNodeCount : ℕ → Type 0
IsNodeCount seqs = (seqs ≡ 1) ⊎ (seqs ≡ 2) ⊎ (seqs ≡ 4)

pub node_count_some : (seqs : ℕ) → IsNodeCount seqs → (seqs == 0) ≡ false
node_count_some seqs (inl e) = ground (arith, e)
node_count_some seqs (inr (inl e)) = ground (arith, e)
node_count_some seqs (inr (inr e)) = ground (arith, e)

Fits : ℕ → Type 0
Fits seqs = (range : ℕ) → range < cpu_core → column_of seqs range ≡ some (range / (cpu_core / seqs))

one_column : Fits 1
unfolding Fits column_of
one_column zero l = refl
one_column (suc zero) l = refl
one_column (suc (suc zero)) l = refl
one_column (suc (suc (suc zero))) l = refl
one_column (suc (suc (suc (suc r)))) l = absurd (omega arith)

two_columns : Fits 2
unfolding Fits column_of
two_columns zero l = refl
two_columns (suc zero) l = refl
two_columns (suc (suc zero)) l = refl
two_columns (suc (suc (suc zero))) l = refl
two_columns (suc (suc (suc (suc r)))) l = absurd (omega arith)

four_columns : Fits 4
unfolding Fits column_of
four_columns zero l = refl
four_columns (suc zero) l = refl
four_columns (suc (suc zero)) l = refl
four_columns (suc (suc (suc zero))) l = refl
four_columns (suc (suc (suc (suc r)))) l = absurd (omega arith)

pub column_of_lem :
    (seqs range : ℕ)
    → IsNodeCount seqs
    → range < cpu_core
    → column_of seqs range ≡ some (range / (cpu_core / seqs))
unfolding Fits
column_of_lem seqs range (inl e) l = subst Fits (sym e) one_column range l
column_of_lem seqs range (inr (inl e)) l = subst Fits (sym e) two_columns range l
column_of_lem seqs range (inr (inr e)) l = subst Fits (sym e) four_columns range l
