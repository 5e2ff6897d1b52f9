-- ===== src/Sort/Remaining.antt =====
-- src/physical/m_sort.cpp: what the ranges still hold while `execute` gives them out.
use mosito.Base.{
  ℕ, zero, suc, ◌+◌, ◌≤◌, ◌<◌, ◌≡◌, refl, ap, sym, ◌∙◌, List, [], ◌∷◌, ◌++◌, concat, length, drop,
  get_or, set, leb, leb→le, arith, Bool-cases, inl, inr, length-set,
}
use mosito.Configuration.{cpu_core}
use mosito.Sort.{Sort, pop_back}

abbrev pub Tuples : Type 0
Tuples = List (List ℕ)

drop_at {ℓ} :
    {A : Type ℓ} (n : ℕ) (xs : List A) (d : A)
    → n < length xs
    → drop n xs ≡ get_or xs n d ∷ drop (suc n) xs
drop_at n [] d h = absurd (omega arith)
drop_at zero (x ∷ xs) d h = refl
drop_at (suc n) (x ∷ xs) d h = drop_at n xs d (omega arith)

drop-set_at {ℓ} :
    {A : Type ℓ} (n : ℕ) (xs : List A) (v : A)
    → n < length xs
    → drop n (set xs n v) ≡ v ∷ drop (suc n) xs
drop-set_at n [] v h = absurd (omega arith)
drop-set_at zero (x ∷ xs) v h = refl
drop-set_at (suc n) (x ∷ xs) v h = drop-set_at n xs v (omega arith)

drop-set_past {ℓ} :
    {A : Type ℓ} (n : ℕ) (xs : List A) (v : A) → drop (suc n) (set xs n v) ≡ drop (suc n) xs
drop-set_past n [] v = refl
drop-set_past zero (x ∷ xs) v = refl
drop-set_past (suc n) (x ∷ xs) v = drop-set_past n xs v

drop_past {ℓ} : {A : Type ℓ} (n : ℕ) (xs : List A) → length xs ≤ n → drop n xs ≡ []
drop_past zero [] h = refl
drop_past zero (x ∷ xs) h = absurd (omega arith)
drop_past (suc n) [] h = refl
drop_past (suc n) (x ∷ xs) h = drop_past n xs (omega arith)

plus_one : (n : ℕ) → n + 1 ≡ suc n
plus_one n = omega arith

-- The tuples that are still to be given out.
abbrev pub remaining : Sort → Tuples
remaining s = concat (drop s.count s.ranges)

-- `temp_cur_` is their number.
pub record IsCounted (s : Sort) : Type 0 where
  pub temp_cur : s.temp_cur ≡ length (remaining s)
  pub cores : length s.ranges ≡ cpu_core

pub inside : (s : Sort) → IsCounted s → 0 < s.temp_cur → s.count < length s.ranges
inside s c h = elim (Bool-cases (leb (length s.ranges) s.count)) [
  | inl e ↦ absurd (
      omega (
        arith,
        c.temp_cur,
        ap (λ rs. length (concat rs)) (drop_past s.count s.ranges (leb→le _ _ e)),
      ))
  | inr e ↦ ground arith
]

remaining_at :
    (s : Sort)
    → s.count < length s.ranges
    → remaining s ≡ get_or s.ranges s.count [] ++ concat (drop (suc s.count) s.ranges)
remaining_at s h = ap concat (drop_at s.count s.ranges [] h)

-- An empty range is passed.
pub passed :
    (s : Sort)
    → s.count < length s.ranges
    → get_or s.ranges s.count [] ≡ []
    → remaining (record s { count = s.count + 1 }) ≡ remaining s
passed s h e =
    ap (λ n. concat (drop n s.ranges)) (plus_one s.count)
    ∙ sym (remaining_at s h ∙ ap (λ r. r ++ concat (drop (suc s.count) s.ranges)) e)

remaining-pop_back :
    (s : Sort) (left : Tuples)
    → s.count < length s.ranges
    → remaining (pop_back s left) ≡ left ++ concat (drop (suc s.count) s.ranges)
unfolding pop_back
remaining-pop_back s [] h =
    ap (λ n. concat (drop n (set s.ranges s.count []))) (plus_one s.count)
    ∙ ap concat (drop-set_past s.count s.ranges [])
remaining-pop_back s (x ∷ left) h = ap concat (drop-set_at s.count s.ranges (x ∷ left) h)

pub popped :
    (s : Sort) (tuple : List ℕ) (left : Tuples)
    → s.count < length s.ranges
    → get_or s.ranges s.count [] ≡ tuple ∷ left
    → remaining s ≡ tuple ∷ remaining (pop_back s left)
popped s tuple left h e =
    remaining_at s h
    ∙ ap (λ r. r ++ concat (drop (suc s.count) s.ranges)) e
    ∙ ap (◌∷◌ tuple) (sym (remaining-pop_back s left h))

pub pop_back-IsCounted :
    (s : Sort) (tuple : List ℕ) (left : Tuples)
    → s.count < length s.ranges
    → get_or s.ranges s.count [] ≡ tuple ∷ left
    → IsCounted s
    → IsCounted (pop_back s left)
unfolding pop_back
pop_back-IsCounted s tuple left h e c = record {
  temp_cur = omega (arith, c.temp_cur, ap length (popped s tuple left h e));
  cores = length-set s.ranges s.count left ∙ c.cores;
}
