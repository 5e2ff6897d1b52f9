-- ===== src/Shuffle/Step.antt =====
-- src/physical/m_shuffle_lower1.cpp: one tuple on its way into the page of its range.
use mosito.Base.{
  ℕ, ◌/◌, ◌<◌, ◌≡◌, ◌≢◌, refl, ap, sym, ◌∙◌, subst, true, false, some, List, [], ◌∷◌, ◌++◌, length,
  get_or, set, take, ltb, ◌==◌, if◌then◌else◌, arith, Bool-cases, ltb→lt, ltb→le, inl, inr,
  length-set, get_or-set_self, get_or-set_ne,
}
use mathlib.Core.List.{append-nil}
use mosito.Sort.{key, compare_start_end}
use mosito.Sort.Ranges.{in_range, IsBelow, first_above}
use mosito.Heap.Sift.{eq_cases}
use mosito.Configuration.{cpu_core}
use mosito.Shuffle.{Tuple, Put, ShuffleLower1, bounds, partition, put_page, route}
use mosito.Page.{room, counted}
use mosito.Shuffle.Puts.{pages_from, pages_from-append, put_here, put_there}
use mosito.Shuffle.Chunks.{IsChunked, stored-IsChunked, put-IsChunked}
use mosito.Shuffle.Columns.{IsNodeCount, column_of_lem}

module _ (tuple_size exchange_id seqs : ℕ) where
  abbrev limits : List ℕ
  limits = bounds exchange_id

  -- For each range `i`, `of i` are the tuples that it was given.
  pub record IsRouted (s : ShuffleLower1) (of : ℕ → List Tuple) : Type 0 where
    pub size : length s.buffers ≡ cpu_core
    pub chunked :
        (i : ℕ)
        → IsChunked
            (room tuple_size)
            (counted tuple_size)
            (of i)
            (pages_from seqs i s.puts)
            (get_or s.buffers i [])

  abbrev pub given : (ℕ → List Tuple) → Tuple → ℕ → List Tuple
  given of t i = of i ++ (if in_range limits i (key t) then t ∷ [] else [])

  route_store :
      (s : ShuffleLower1) (t : Tuple) (range : ℕ)
      → partition t limits ≡ some range
      → ltb (length (get_or s.buffers range [])) (room tuple_size) ≡ true
      → route tuple_size exchange_id seqs s t
        ≡ some (record s { buffers = set s.buffers range (get_or s.buffers range [] ++ t ∷ []) })
  unfolding route
  route_store s t range e f = rw (e, f, route) refl

  -- A page of range `range` goes into the column of its node.
  put_page_lem :
      (puts : List Put) (range : ℕ) (buffer : List Tuple)
      → (exchange_id == 10) ≡ false
      → IsNodeCount seqs
      → range < cpu_core
      → put_page tuple_size exchange_id seqs puts range buffer
        ≡ some (
            puts
            ++ record {
              source = some range;
              column = range / (cpu_core / seqs);
              page = take (counted tuple_size) buffer;
            }
              ∷ [])
  unfolding put_page
  put_page_lem puts range buffer x c l = rw (x, column_of_lem seqs range c l, put_page) refl

  route_put :
      (s : ShuffleLower1) (t : Tuple) (range : ℕ)
      → (exchange_id == 10) ≡ false
      → IsNodeCount seqs
      → range < cpu_core
      → partition t limits ≡ some range
      → ltb (length (get_or s.buffers range [])) (room tuple_size) ≡ false
      → route tuple_size exchange_id seqs s t
        ≡ some (record {
          buffers = set s.buffers range [];
          puts =
              s.puts
              ++ record {
                source = some range;
                column = range / (cpu_core / seqs);
                page = take (counted tuple_size) (get_or s.buffers range []);
              }
                ∷ [];
        })
  unfolding route
  route_put s t range x c l e f =
      rw (e, f, put_page_lem s.puts range (get_or s.buffers range []) x c l, route) refl

  pub limits_four : (exchange_id == 10) ≡ false → length limits ≡ cpu_core
  limits_four x = rw x refl

  -- One more tuple for range `j`.
  IsRouted-step :
      (s : ShuffleLower1) (of : ℕ → List Tuple) (t : Tuple) (j : ℕ) (buffer : List Tuple)
      (puts : List Put)
      → IsRouted s of
      → j < cpu_core
      → ((i : ℕ) → in_range limits i (key t) ≡ (i == j))
      → IsChunked
          (room tuple_size)
          (counted tuple_size)
          (of j ++ t ∷ [])
          (pages_from seqs j puts)
          buffer
      → ((i : ℕ) → j ≢ i → pages_from seqs i puts ≡ pages_from seqs i s.puts)
      → IsRouted (record { buffers = set s.buffers j buffer; puts = puts }) (given of t)
  IsRouted-step s of t j buffer puts r l only here there = record {
    size = length-set s.buffers j buffer ∙ r.size;
    chunked = λ i. elim (eq_cases j i) [
      | inl e ↦ subst (λ k. Chunked k) e at_j
      | inr d ↦
          rw
            (
              only i,
              not_equal i d,
              append-nil (of i),
              there i d,
              get_or-set_ne s.buffers j i buffer [] d,
            )
            (r.chunked i)
    ];
  }
    where
      Chunked : ℕ → Type 0
      Chunked k =
          IsChunked (room tuple_size) (counted tuple_size) (given of t k) (pages_from seqs k puts)
            (get_or (set s.buffers j buffer) k [])

      not_equal : (i : ℕ) → j ≢ i → (i == j) ≡ false
      not_equal i d = ground arith

      itself : (j == j) ≡ true
      itself = ground arith

      at_j : Chunked j
      at_j = rw (only j, itself, get_or-set_self s.buffers j buffer [] (omega (arith, r.size))) here

  pub route-IsRouted :
      (s : ShuffleLower1) (of : ℕ → List Tuple) (t : Tuple)
      → (exchange_id == 10) ≡ false
      → IsNodeCount seqs
      → IsBelow limits (key t)
      → IsRouted s of
      → (s' : ShuffleLower1) × (route tuple_size exchange_id seqs s t ≡ some s')
        × IsRouted s' (given of t)
  unfolding partition compare_start_end
  route-IsRouted s of t x m w r =
      let (j, inside, found, only) = first_above limits 0 (key t) w in
      let l : j < cpu_core = omega (arith, limits_four x) in
      let at : partition t limits ≡ some j = found ∙ ap some (omega arith) in
      let c = r.chunked j in
      elim (Bool-cases (ltb (length (get_or s.buffers j [])) (room tuple_size))) [
        | inl e ↦ (
          _,
          route_store s t j at e,
          IsRouted-step s of t j (get_or s.buffers j [] ++ t ∷ []) s.puts r l only
              (stored-IsChunked _ _ (of j) (pages_from seqs j s.puts) (get_or s.buffers j []) t
                (ltb→lt _ _ e) c)
              (λ i d. refl),
        )
        | inr e ↦ (
          _,
          route_put s t j x m l at e,
          IsRouted-step s of t j [] _ r l only
              (subst (λ ps. IsChunked (room tuple_size) (counted tuple_size) (of j ++ t ∷ []) ps [])
                (sym (
                  pages_from-append seqs j s.puts _
                  ∙ ap (λ ps. pages_from seqs j s.puts ++ ps)
                      (put_here seqs j (take (counted tuple_size) (get_or s.buffers j [])))))
                (put-IsChunked _ _ (of j) (pages_from seqs j s.puts) (get_or s.buffers j []) t
                  (omega (arith, ltb→le _ _ e, c.fits)) c))
              (λ i d.
                pages_from-append seqs i s.puts _
                ∙ ap (λ ps. pages_from seqs i s.puts ++ ps)
                    (put_there seqs j i (take (counted tuple_size) (get_or s.buffers j [])) d)
                ∙ append-nil (pages_from seqs i s.puts)),
        )
      ]
