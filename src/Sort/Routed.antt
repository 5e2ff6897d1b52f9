-- ===== src/Sort/Routed.antt =====
-- src/physical/m_shuffle_lower1.cpp and m_sort.cpp together: what the lower shuffle sends to a node is sorted there.
use mosito.Base.{
  ℕ, zero, suc, ◌+◌, ◌*◌, ◌/◌, ◌≤◌, ◌<◌, ◌≡◌, refl, ap, sym, ◌∙◌, Bool, true, false, Option, none,
  some, List, [], ◌∷◌, concat, length, get_or, ltb, ◌==◌, if◌then◌else◌, arith, All, All-map,
  Bool-cases, inl, inr, ◌⊎◌, subst,
}
use mosito.Configuration.{cpu_core, datavolume}
use mosito.Heap.Same.{count}
use mosito.Shuffle.{partition, bounds}
use mosito.Page.{room, counted}
use mosito.Queue.{block_size}
use mosito.Sort.{Sort, key, bounds_of, compare_start_end_from, compare_start_end, prelude, gather}
use mosito.Sort.Ranges.{IsBelow}
use mosito.Sort.Remaining.{Tuples}
use mosito.Sort.Calls.{IsFilled, shown}
use mosito.Sort.Ascending.{Distinct, IsAscending, IsStableSort}
use mosito.Sort.Sorted.{gather-prelude}

here_or_later :
    (b : ℕ) (bs : List ℕ) (i v r : ℕ) (t : Bool)
    → ltb v b ≡ t
    → compare_start_end_from i (b ∷ bs) v ≡ some r
    → (if t then some i else compare_start_end_from (i + 1) bs v) ≡ some r
unfolding compare_start_end_from
here_or_later b bs i v r t f e =
    ap (λ c. if c then some i else compare_start_end_from (i + 1) bs v) (sym f) ∙ e

value : Option ℕ → ℕ
value none = 0
value (some n) = n

-- The bound that is found is above the value.
found :
    (bs : List ℕ) (i v r : ℕ)
    → compare_start_end_from i bs v ≡ some r
    → (j : ℕ) × (j < length bs) × (r ≡ i + j) × (v < get_or bs j 0)
unfolding compare_start_end_from value
found [] i v r e = absurd (cc e)
found (b ∷ bs) i v r e = elim (Bool-cases (ltb v b)) [
  | inl f ↦ (
    0,
    omega arith,
    sym (ap value (here_or_later b bs i v r true f e)) ∙ omega arith,
    ground (arith, f),
  )
  | inr f ↦
      let (j, h, p, l) = found bs (i + 1) v r (here_or_later b bs i v r false f e) in
      (suc j, omega (arith, h), omega (arith, p), l)
]

abbrev pub last_bound : ℕ → ℕ → ℕ
last_bound th nodes = th * datavolume / nodes + 4 * datavolume / (nodes * cpu_core)

four_nodes :
    (th j v : ℕ)
    → j < 4
    → th ≡ 0 + j
    → v
      < get_or
          (datavolume / cpu_core
            ∷ 2 * datavolume / cpu_core
            ∷ 3 * datavolume / cpu_core
            ∷ datavolume
            ∷ [])
          j
          0
    → v < last_bound th 4
four_nodes th zero v h e l = omega (arith, e, l)
four_nodes th (suc zero) v h e l = omega (arith, e, l)
four_nodes th (suc (suc zero)) v h e l = omega (arith, e, l)
four_nodes th (suc (suc (suc zero))) v h e l = omega (arith, e, l)
four_nodes th (suc (suc (suc (suc j)))) v h e l = absurd (omega arith)

one_node :
    (th j v : ℕ) → j < 1 → th ≡ 0 + j → v < get_or (datavolume ∷ []) j 0 → v < last_bound th 1
one_node th zero v h e l = omega (arith, e, l)
one_node th (suc j) v h e l = absurd (omega arith)

abbrev four_bounds : List ℕ
four_bounds =
    datavolume / cpu_core ∷ 2 * datavolume / cpu_core ∷ 3 * datavolume / cpu_core ∷ datavolume ∷ []

bounds_cases :
    (exchange_id : ℕ) → (bounds exchange_id ≡ datavolume ∷ []) ⊎ (bounds exchange_id ≡ four_bounds)
bounds_cases exchange_id = elim (Bool-cases (exchange_id == 10)) [
  | inl f ↦ inl (rw f refl)
  | inr f ↦ inr (rw f refl)
]

-- A key that the shuffle sends to a node has a bound above it there.
partition-IsBelow :
    (exchange_id th : ℕ) (t : List ℕ)
    → partition t (bounds exchange_id) ≡ some th
    → IsBelow (bounds_of th (length (bounds exchange_id))) (key t)
unfolding partition compare_start_end
partition-IsBelow exchange_id th t e = elim (bounds_cases exchange_id) [
  | inl f ↦
      let (j, h, p, l) =
        found (datavolume ∷ []) 0 (key t) th
          (subst (λ bs. compare_start_end_from 0 bs (key t) ≡ some th) f e) in
      subst (λ bs. IsBelow (bounds_of th (length bs)) (key t)) (sym f)
        (3, omega arith, one_node th j (key t) h p l)
  | inr f ↦
      let (j, h, p, l) =
        found four_bounds 0 (key t) th
          (subst (λ bs. compare_start_end_from 0 bs (key t) ≡ some th) f e) in
      subst (λ bs. IsBelow (bounds_of th (length bs)) (key t)) (sym f)
        (3, omega arith, four_nodes th j (key t) h p l)
]

-- On node `th` of as many nodes as the lower shuffle has ranges, over tuples that it sends to range
-- `th`, not of size 0 nor longer than a page, with different keys, and with a `stable_sort` that does
-- what C++ promises: `prelude` with that node's bounds makes its ranges, and the repeated calls of
-- `execute` store the same tuples by ascending key, as many in each call as a page has room for but in the last. After each call a
-- reader gets `counted` tuples: the first of those that the call stored, and, when it stored fewer,
-- for the rest those that he got in their places after the call before, or that the block held at
-- first.
pub gather-routed :
    (stable_sort : Tuples → Tuples) (exchange_id th : ℕ) (pages : List Tuples) (tuple_size fuel : ℕ)
    (block : Tuples)
    → IsStableSort stable_sort
    → All (λ t. partition t (bounds exchange_id) ≡ some th) (concat pages)
    → Distinct (concat pages)
    → 0 < tuple_size
    → tuple_size ≤ block_size
    → length block ≡ counted tuple_size
    → length (concat pages) < fuel
    → (s : Sort) × (stored : List Tuples) × (prelude stable_sort
          (bounds_of th (length (bounds exchange_id)))
          pages
        ≡ some s)
      × (gather tuple_size fuel block s ≡ some (shown tuple_size block stored))
      × All (λ page. length page ≡ counted tuple_size) (shown tuple_size block stored)
      × IsAscending (concat stored)
      × ((p : List ℕ → Bool) → count p (concat stored) ≡ count p (concat pages))
      × IsFilled (room tuple_size) stored
gather-routed stable_sort exchange_id th pages tuple_size fuel block c h d n l b f =
    gather-prelude stable_sort (bounds_of th (length (bounds exchange_id))) pages tuple_size fuel
      block c refl (All-map (concat pages) (λ t e. partition-IsBelow exchange_id th t e) h) d n l b
      f
