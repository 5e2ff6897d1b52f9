-- ===== src/Shuffle/Routes.antt =====
-- src/physical/m_shuffle_lower1.cpp: what `execute` puts for each range of keys.
use mosito.Base.{
  concat, ℕ, zero, suc, ◌+◌, ◌<◌, ◌≡◌, ◌≢◌, refl, ap, sym, ◌∙◌, subst, Bool, true, false, some,
  List, [], ◌∷◌, ◌++◌, get_or, replicate, ◌==◌, if◌then◌else◌, All, All-map, arith, Bool-cases, inl,
  inr, get_or-replicate,
}
use mathlib.Core.List.{append_assoc, append-nil}
use mosito.Sort.{key}
use mosito.Sort.Ranges.{in_range, IsBelow, keep}
use mosito.Configuration.{datavolume, cpu_core}
use mosito.Shuffle.{
  Tuple, Put, started, ShuffleLower1, bounds, route_all, route_pages, end_puts, execute,
}
use mosito.Page.{room, counted}
use mosito.Shuffle.Puts.{pages_from, pages_from-append}
use mosito.Shuffle.Chunks.{IsChunked, none-IsChunked}
use mosito.Shuffle.Columns.{IsNodeCount, node_count_some}
use mosito.Shuffle.Step.{IsRouted, given, limits_four, route-IsRouted}

module _ (tuple_size exchange_id seqs : ℕ) where
  abbrev limits : List ℕ
  limits = bounds exchange_id

  IsRouted-same :
      (s : ShuffleLower1) (of of' : ℕ → List Tuple)
      → ((i : ℕ) → of i ≡ of' i)
      → IsRouted tuple_size exchange_id seqs s of
      → IsRouted tuple_size exchange_id seqs s of'
  IsRouted-same s of of' e r = record {
    size = r.size;
    chunked = λ i.
        subst
          (λ ts.
            IsChunked (room tuple_size) (counted tuple_size) ts (pages_from seqs i s.puts)
              (get_or s.buffers i []))
          (e i) (r.chunked i);
  }

  -- The tuples of range `i`.
  abbrev pub for_range : ℕ → List Tuple → List Tuple
  for_range i ts = keep (λ t. in_range limits i (key t)) ts

  for_range-cons :
      (i : ℕ) (xs : List Tuple) (t : Tuple) (ts : List Tuple) (b : Bool)
      → (xs ++ (if b then t ∷ [] else [])) ++ ts ≡ xs ++ (if b then t ∷ ts else ts)
  for_range-cons i xs t ts true = append_assoc xs (t ∷ []) ts
  for_range-cons i xs t ts false = ap (λ ys. ys ++ ts) (append-nil xs)

  for_range-append :
      (i : ℕ) (ts us : List Tuple) → for_range i (ts ++ us) ≡ for_range i ts ++ for_range i us
  for_range-append i [] us = refl
  for_range-append i (t ∷ ts) us = elim (Bool-cases (in_range limits i (key t))) [
    | inl e ↦ rw e (ap (◌∷◌ t) (for_range-append i ts us))
    | inr e ↦ rw e (for_range-append i ts us)
  ]

  route_all-IsRouted :
      (s : ShuffleLower1) (of : ℕ → List Tuple) (ts : List Tuple)
      → (exchange_id == 10) ≡ false
      → IsNodeCount seqs
      → All (λ t. IsBelow limits (key t)) ts
      → IsRouted tuple_size exchange_id seqs s of
      → (s' : ShuffleLower1) × (route_all tuple_size exchange_id seqs s ts ≡ some s')
        × IsRouted tuple_size exchange_id seqs s' (λ i. of i ++ for_range i ts)
  unfolding route_all
  route_all-IsRouted s of [] x m w r =
      (s, refl, IsRouted-same s of _ (λ i. sym (append-nil (of i))) r)
  route_all-IsRouted s of (t ∷ ts) x m w r =
      let (s1, e, r1) = route-IsRouted tuple_size exchange_id seqs s of t x m w.0 r in
      let (s2, f, r2) =
        route_all-IsRouted s1 (given tuple_size exchange_id seqs of t) ts x m w.1 r1 in
      (
        s2,
        rw (e, route_all) f,
        IsRouted-same s2 _ _
            (λ i. for_range-cons i (of i) t (for_range i ts) (in_range limits i (key t))) r2,
      )

  route_pages-IsRouted :
      (s : ShuffleLower1) (of : ℕ → List Tuple) (pages : List (List Tuple))
      → (exchange_id == 10) ≡ false
      → IsNodeCount seqs
      → All (All (λ t. IsBelow limits (key t))) pages
      → IsRouted tuple_size exchange_id seqs s of
      → (s' : ShuffleLower1) × (route_pages tuple_size exchange_id seqs s pages ≡ some s')
        × IsRouted tuple_size exchange_id seqs s' (λ i. of i ++ for_range i (concat pages))
  unfolding route_pages
  route_pages-IsRouted s of [] x m w r =
      (s, refl, IsRouted-same s of _ (λ i. sym (append-nil (of i))) r)
  route_pages-IsRouted s of (page ∷ pages) x m w r =
      let (s1, e, r1) = route_all-IsRouted s of page x m w.0 r in
      let (s2, f, r2) = route_pages-IsRouted s1 _ pages x m w.1 r1 in
      (
        s2,
        rw (e, route_pages) f,
        IsRouted-same s2 _ _
            (λ i.
              append_assoc (of i) (for_range i page) (for_range i (concat pages))
              ∙ ap (λ ts. of i ++ ts) (sym (for_range-append i page (concat pages))))
            r2,
      )

  All-IsBelow :
      (x : (exchange_id == 10) ≡ false) (pages : List (List Tuple))
      → All (All (λ t. key t < datavolume)) pages
      → All (All (λ t. IsBelow limits (key t))) pages
  All-IsBelow x pages h =
      All-map pages
        (λ page l.
          All-map page
            (λ t m. (3, omega (arith, limits_four tuple_size exchange_id seqs x), rw x m)) l)
        h

  no_end_pages : (i j k : ℕ) → pages_from seqs i (end_puts tuple_size exchange_id seqs j k) ≡ []
  unfolding end_puts
  no_end_pages i j zero = refl
  no_end_pages i j (suc k) = no_end_pages i (j + 1) k

  no_buffer : (i : ℕ) → get_or (replicate {A = List Tuple} cpu_core []) i [] ≡ []
  no_buffer i = get_or-replicate cpu_core i []

  -- `execute` on an exchange other than 10, to 1, 2 or 4 nodes, from empty buffers, when every key is
  -- below DATAVOLUME and tuples are not of size 0: no column is missing and nothing is divided by zero. The tuples of each range are, in their order: full pages, after each of them one tuple that is sent
  -- nowhere, and a rest of at most a page that stays in the buffer. The full pages, cut to the tuples
  -- that are counted, are put into the column of the range. The last puts are an empty page into every
  -- column.
  pub execute-IsChunked :
      (pages : List (List Tuple))
      → 0 < tuple_size
      → exchange_id ≢ 10
      → IsNodeCount seqs
      → All (All (λ t. key t < datavolume)) pages
      → (s : ShuffleLower1) × (routed : List Put) × (execute tuple_size exchange_id seqs started
            pages
          ≡ some s)
        × (s.puts ≡ routed ++ end_puts tuple_size exchange_id seqs 0 seqs)
        × ((i : ℕ)
            → IsChunked
                (room tuple_size)
                (counted tuple_size)
                (for_range i (concat pages))
                (pages_from seqs i s.puts)
                (get_or s.buffers i []))
  unfolding execute
  execute-IsChunked pages z d m h =
      let x : (exchange_id == 10) ≡ false = ground arith in
      let some_nodes : (seqs == 0) ≡ false = node_count_some seqs m in
      let (s, e, r) =
        route_pages-IsRouted started (λ i. []) pages x m (All-IsBelow x pages h)
          (record {
            size = refl;
            chunked = λ i.
                subst (λ b. IsChunked (room tuple_size) (counted tuple_size) [] [] b)
                  (sym (no_buffer i)) (none-IsChunked (room tuple_size) (counted tuple_size));
          }) in
      (
        record s { puts = s.puts ++ end_puts tuple_size exchange_id seqs 0 seqs },
        s.puts,
        rw (some_nodes, e, execute) refl,
        refl,
        (λ i.
            subst
              (λ ps.
                IsChunked (room tuple_size) (counted tuple_size) (for_range i (concat pages)) ps
                  (get_or s.buffers i []))
              (sym (
                pages_from-append seqs i s.puts (end_puts tuple_size exchange_id seqs 0 seqs)
                ∙ ap (λ ps. pages_from seqs i s.puts ++ ps) (no_end_pages i 0 seqs)
                ∙ append-nil (pages_from seqs i s.puts)))
              (r.chunked i)),
      )
