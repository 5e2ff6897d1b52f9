-- ===== src/Histogram/Threads.antt =====
-- src/analysis/m_histogram.cpp: the threads make the same histogram, in whatever order they come.
use mosito.Base.{
  concat, ℕ, suc, ◌+◌, ◌%◌, ◌<◌, ◌≡◌, refl, ap, ap₂, subst, sym, ◌∙◌, Bool, List, [], ◌∷◌, length,
  get_or, set, get_or-replicate, length-set, get_or-set_self, get_or-set_ne, ◌==◌, All, All-map,
  arith, inl, inr,
}
use mosito.Sort.{key}
use mosito.Heap.Same.{bit, count, count-append, count_le}
use mosito.Heap.Sift.{eq_cases}
use mosito.Shuffle.{Tuple}
use mosito.Histogram.{
  hist_size, bin, count_up, increase, zeros, eval_block, eval, pthread_e, increase_all,
}

-- `Interleaved threads order`: the steps of the threads in some order that keeps that of each.
pub data Interleaved : List (List Tuple) → List Tuple → Type 0 where
  done : Interleaved ([] ∷ [] ∷ [] ∷ [] ∷ []) []
  first :
      {t : Tuple} {a b c d order : List Tuple}
      → Interleaved (a ∷ b ∷ c ∷ d ∷ []) order
      → Interleaved ((t ∷ a) ∷ b ∷ c ∷ d ∷ []) (t ∷ order)
  second :
      {t : Tuple} {a b c d order : List Tuple}
      → Interleaved (a ∷ b ∷ c ∷ d ∷ []) order
      → Interleaved (a ∷ (t ∷ b) ∷ c ∷ d ∷ []) (t ∷ order)
  third :
      {t : Tuple} {a b c d order : List Tuple}
      → Interleaved (a ∷ b ∷ c ∷ d ∷ []) order
      → Interleaved (a ∷ b ∷ (t ∷ c) ∷ d ∷ []) (t ∷ order)
  fourth :
      {t : Tuple} {a b c d order : List Tuple}
      → Interleaved (a ∷ b ∷ c ∷ d ∷ []) order
      → Interleaved (a ∷ b ∷ c ∷ (t ∷ d) ∷ []) (t ∷ order)

count_threads : (Tuple → Bool) → List (List Tuple) → ℕ
count_threads p [] = 0
count_threads p (thread ∷ threads) = count p thread + count_threads p threads

Interleaved-count :
    (p : Tuple → Bool) {threads : List (List Tuple)} {order : List Tuple}
    → Interleaved threads order
    → count p order ≡ count_threads p threads
unfolding count_threads
Interleaved-count p done = refl
Interleaved-count p (first i) = omega (arith, Interleaved-count p i)
Interleaved-count p (second i) = omega (arith, Interleaved-count p i)
Interleaved-count p (third i) = omega (arith, Interleaved-count p i)
Interleaved-count p (fourth i) = omega (arith, Interleaved-count p i)

-- What the threads do, for the arguments that they have read.
abbrev pub threads_of : List ℕ → List (List Tuple) → List (List Tuple)
threads_of [] blocks = []
threads_of (i ∷ is) blocks = pthread_e i blocks ∷ threads_of is blocks

threads-count :
    (p : Tuple → Bool) (blocks : List (List Tuple))
    → count_threads p (threads_of (0 ∷ 1 ∷ 2 ∷ 3 ∷ []) blocks) ≡ count p (concat blocks)
unfolding count_threads pthread_e
threads-count p [] = refl
threads-count p (block ∷ blocks) = omega (
  arith,
  threads-count p blocks,
  count-append p block (pthread_e 3 blocks),
  count-append p block (concat blocks),
)

-- The tuples that fall into bin `j`.
abbrev in_bin : ℕ → Tuple → Bool
in_bin j t = bin t == j

get_or-count_up :
    (h : List ℕ) (t : Tuple) (j : ℕ)
    → j < length h
    → get_or (count_up h t) j 0 ≡ get_or h j 0 + bit (in_bin j t)
unfolding count_up
get_or-count_up h t j l = elim (eq_cases (bin t) j) [
  | inl e ↦
      let same : bit (in_bin j t) ≡ 1 = ground arith in
      ap (λ k. get_or (set h k (get_or h k 0 + 1)) j 0) e
      ∙ get_or-set_self h j (get_or h j 0 + 1) 0 l
      ∙ omega (arith, same)
  | inr d ↦
      let other : bit (in_bin j t) ≡ 0 = ground arith in
      get_or-set_ne h (bin t) j (get_or h (bin t) 0 + 1) 0 d ∙ omega (arith, other)
]

get_or-increase :
    (h : List ℕ) (t : Tuple) (j : ℕ)
    → j < length h
    → get_or h j 0 + bit (in_bin j t) < 4294967296
    → get_or (increase h t) j 0 ≡ get_or h j 0 + bit (in_bin j t)
unfolding increase
get_or-increase h t j l f = elim (eq_cases (bin t) j) [
  | inl e ↦
      let same : bit (in_bin j t) ≡ 1 = ground arith in
      ap (λ k. get_or (set h k ((get_or h k 0 + 1) % 4294967296)) j 0) e
      ∙ get_or-set_self h j ((get_or h j 0 + 1) % 4294967296) 0 l
      ∙ omega (arith, same, f)
  | inr d ↦
      let other : bit (in_bin j t) ≡ 0 = ground arith in
      get_or-set_ne h (bin t) j ((get_or h (bin t) 0 + 1) % 4294967296) 0 d ∙ omega (arith, other)
]

length-count_up : (h : List ℕ) (t : Tuple) → length (count_up h t) ≡ length h
unfolding count_up
length-count_up h t = length-set h (bin t) (get_or h (bin t) 0 + 1)

length-increase : (h : List ℕ) (t : Tuple) → length (increase h t) ≡ length h
unfolding increase
length-increase h t = length-set h (bin t) ((get_or h (bin t) 0 + 1) % 4294967296)

-- A histogram with so many more in each bin.
abbrev Adds : List ℕ → List Tuple → List ℕ → Type 0
Adds h ts g =
    (length g ≡ length h)
    × ((j : ℕ) → j < length h → get_or g j 0 ≡ get_or h j 0 + count (in_bin j) ts)

eval_block-Adds : (h : List ℕ) (ts : List Tuple) → Adds h ts (eval_block h ts)
unfolding eval_block
eval_block-Adds h [] = (refl, (λ j l. omega arith))
eval_block-Adds h (t ∷ ts) =
    let r = eval_block-Adds (count_up h t) ts in
    (
      r.0 ∙ length-count_up h t,
      (λ j l. omega (arith, r.1 j (omega (arith, length-count_up h t)), get_or-count_up h t j l)),
    )

eval-Adds : (h : List ℕ) (blocks : List (List Tuple)) → Adds h (concat blocks) (eval h blocks)
unfolding eval
eval-Adds h [] = (refl, (λ j l. omega arith))
eval-Adds h (block ∷ blocks) =
    let b = eval_block-Adds h block in
    let r = eval-Adds (eval_block h block) blocks in
    (
      r.0 ∙ b.0,
      (λ j l. omega (
        arith,
        r.1 j (omega (arith, b.0)),
        b.1 j l,
        count-append (in_bin j) block (concat blocks),
      )),
    )

increase_all-Adds :
    (h : List ℕ) (ts : List Tuple)
    → ((j : ℕ) → j < length h → get_or h j 0 + count (in_bin j) ts < 4294967296)
    → Adds h ts (increase_all h ts)
unfolding increase_all
increase_all-Adds h [] f = (refl, (λ j l. omega arith))
increase_all-Adds h (t ∷ ts) f =
    let n = length-increase h t in
    let one : (j : ℕ) → j < length h → get_or (increase h t) j 0 ≡ get_or h j 0 + bit (in_bin j t) =
      λ j l. get_or-increase h t j l (omega (arith, f j l)) in
    let r =
      increase_all-Adds (increase h t) ts
        (λ j l. omega (arith, one j (omega (arith, n)), f j (omega (arith, n)))) in
    (r.0 ∙ n, (λ j l. omega (arith, r.1 j (omega (arith, n)), one j l)))

same_entries :
    (xs ys : List ℕ)
    → length xs ≡ length ys
    → ((j : ℕ) → j < length xs → get_or xs j 0 ≡ get_or ys j 0)
    → xs ≡ ys
same_entries [] [] n e = refl
same_entries [] (y ∷ ys) n e = absurd (omega arith)
same_entries (x ∷ xs) [] n e = absurd (omega arith)
same_entries (x ∷ xs) (y ∷ ys) n e =
    ap₂ (◌∷◌) (e 0 (omega arith))
      (same_entries xs ys (omega arith) (λ j l. e (suc j) (omega arith)))

bin-inside : (t : Tuple) → key t < 10000000 → bin t < hist_size
unfolding bin
bin-inside t l = omega (arith, l)

All-bin : (ts : List Tuple) → All (λ t. key t < 10000000) ts → All (λ t. bin t < hist_size) ts
All-bin ts h = All-map ts bin-inside h

-- `Histogram1::pthreads_eval` and `Histogram::eval` on the same blocks, when each thread has read its
-- own argument, fewer than 2 ^ 31 tuples are there and every key is below 10000000: in whatever order
-- the increments of the threads come, the histograms are equal, and no tuple falls outside of them.
pub threads-eval :
    (blocks : List (List Tuple)) (seen : List ℕ) (order : List Tuple)
    → seen ≡ 0 ∷ 1 ∷ 2 ∷ 3 ∷ []
    → Interleaved (threads_of seen blocks) order
    → length (concat blocks) < 2147483648
    → All (λ t. key t < 10000000) (concat blocks)
    → (increase_all zeros order ≡ eval zeros blocks) × All (λ t. bin t < hist_size) (concat blocks)
threads-eval blocks seen order e i few keys =
    let counts : (p : Tuple → Bool) → count p order ≡ count p (concat blocks) = λ p.
      Interleaved-count p (subst (λ is. Interleaved (threads_of is blocks) order) e i)
      ∙ threads-count p blocks in
    let zero_at : (j : ℕ) → ◌≡◌ {A = ℕ} (get_or zeros j 0) 0 =
      λ j. get_or-replicate hist_size j 0 in
    let par =
      increase_all-Adds zeros order
        (λ j l. omega (arith, zero_at j, counts (in_bin j), count_le (in_bin j) (concat blocks))) in
    let seq = eval-Adds zeros blocks in
    (
      same_entries (increase_all zeros order) (eval zeros blocks) (par.0 ∙ sym seq.0) (λ j l.
          let m : j < length zeros = omega (arith, l, par.0) in
          omega (arith, par.1 j m, seq.1 j m, counts (in_bin j))),
      All-bin (concat blocks) keys,
    )
