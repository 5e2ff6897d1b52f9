-- ===== src/Sort/Sorted.antt =====
-- src/physical/m_sort.cpp: what `prelude` and `execute` do together.
use mosito.Base.{
  ℕ, suc, ◌+◌, ◌≤◌, ◌<◌, ◌≡◌, refl, ap, sym, subst, ◌∙◌, Bool, true, some, List, [], ◌∷◌, ◌++◌, map,
  concat, length, get_or, replicate, arith, All, get_or-replicate,
}
use mathlib.Core.List.{reverse}
use mosito.Configuration.{cpu_core}
use mosito.Heap.Same.{count-all, count}
use mosito.Page.{room, counted, room_some}
use mosito.Queue.{block_size}
use mosito.Sort.{Sort, key, distribute, prelude, gather}
use mosito.Sort.Parts.{Parts-placed, sorted, four, ranges-IsAscending}
use mosito.Sort.Ranges.{in_range, IsBelow, keep, distribute-Distributed}
use mosito.Sort.Remaining.{Tuples, remaining, IsCounted}
use mosito.Sort.Calls.{IsFilled, shown, shown_all, gather-Pages}
use mosito.Sort.Ascending.{Distinct, IsAscending, IsStableSort}

length-map : (f : Tuples → Tuples) (rs : List Tuples) → length (map f rs) ≡ length rs
length-map f [] = refl
length-map f (r ∷ rs) = ap suc (length-map f rs)

none_before :
    (bs : List ℕ) (ts : Tuples) (k : ℕ)
    → get_or (replicate cpu_core []) k [] ++ keep (λ t. in_range bs k (key t)) ts
      ≡ keep (λ t. in_range bs (0 + k) (key t)) ts
none_before bs ts k =
    ap (λ x. x ++ keep (λ t. in_range bs k (key t)) ts) (get_or-replicate cpu_core k [])
    ∙ ap (λ n. keep (λ t. in_range bs n (key t)) ts) (omega arith)

pub prelude_lem :
    (stable_sort : Tuples → Tuples) (dist_ranges : List ℕ) (pages : List Tuples) (rs : List Tuples)
    → distribute dist_ranges (replicate cpu_core []) (concat pages) ≡ some rs
    → prelude stable_sort dist_ranges pages
      ≡ some (record {
        ranges = map (λ range. reverse (stable_sort range)) rs;
        count = 0;
        temp_cur = length (concat pages);
      })
unfolding prelude
prelude_lem stable_sort dist_ranges pages rs e = rw (e, prelude) refl

-- When the tuples that the child gives are not of size 0 nor longer than a page, their keys differ and
-- each has a bound above it, and `stable_sort` does what C++ promises of it, the four ranges
-- are made; the repeated calls of `execute` then store the same tuples, by ascending key, as many in
-- each call as a page has room for but in the last. After each call a reader gets `counted` tuples:
-- the first of those that the call stored, and, when it stored fewer, for the rest those that he got
-- in their places after the call before, or that the block held at first.
pub gather-prelude :
    (stable_sort : Tuples → Tuples) (dist_ranges : List ℕ) (pages : List Tuples)
    (tuple_size fuel : ℕ) (block : Tuples)
    → IsStableSort stable_sort
    → length dist_ranges ≡ cpu_core
    → All (λ t. IsBelow dist_ranges (key t)) (concat pages)
    → Distinct (concat pages)
    → 0 < tuple_size
    → tuple_size ≤ block_size
    → length block ≡ counted tuple_size
    → length (concat pages) < fuel
    → (s : Sort) × (stored : List Tuples) × (prelude stable_sort dist_ranges pages ≡ some s)
      × (gather tuple_size fuel block s ≡ some (shown tuple_size block stored))
      × All (λ page. length page ≡ counted tuple_size) (shown tuple_size block stored)
      × IsAscending (concat stored)
      × ((p : List ℕ → Bool) → count p (concat stored) ≡ count p (concat pages))
      × IsFilled (room tuple_size) stored
unfolding sorted
gather-prelude stable_sort dist_ranges pages tuple_size fuel block c n h d z l b f =
    let ts = concat pages in
    let (rs, e, placed) = distribute-Distributed dist_ranges (replicate cpu_core []) ts (sym n) h in
    let parts =
      Parts-placed dist_ranges ts 0 rs (λ k. placed.placed k ∙ none_before dist_ranges ts k) in
    let same = λ (p : List ℕ → Bool).
      four stable_sort c dist_ranges ts d rs p n placed.same_length h parts in
    let s : Sort = record {
      ranges = map (λ range. reverse (stable_sort range)) rs;
      count = 0;
      temp_cur = length ts;
    } in
    let in_order : IsCounted s = record {
      temp_cur = sym (count-all ts) ∙ sym (same (λ t. true)) ∙ count-all (remaining s);
      cores = length-map _ rs ∙ placed.same_length;
    } in
    let (stored, g, order, filled) =
      gather-Pages tuple_size fuel block s (room_some tuple_size z l) f in_order in
    (
      s,
      stored,
      prelude_lem stable_sort dist_ranges pages rs e,
      g,
      shown_all tuple_size block stored b,
      subst IsAscending (sym order) (
          ranges-IsAscending stable_sort c dist_ranges ts d 0 rs
            (omega (arith, n, placed.same_length)) parts),
      λ p. ap (count p) order ∙ same p,
      filled,
    )
