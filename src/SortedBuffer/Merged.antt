-- ===== src/SortedBuffer/Merged.antt =====
-- `get_sorted` from its first call on.
use mosito.Base.{
  ℕ, zero, suc, ◌+◌, ◌≤◌, ◌<◌, ◌≡◌, refl, ap, sym, ◌∙◌, subst, inl, arith, Bool, true, false, some,
  List, [], ◌∷◌, ◌++◌, map, take, concat, length, get_or, All,
}
use mosito.Heap.Same.{count, count_le}
use mosito.Heap.Sift.{IsOrder}
use mosito.LoserTree.{initialize}
use mosito.LoserTree.Initialize.{initialize-IsTournament}
use mosito.Runs.Ascending.{IsAscending}
use mosito.Page.{room, counted}
use mosito.Queue.{block_size}
use mosito.SortedBuffer.{PcBuffer, first_blocks, start, get_sorted, gather}
use mosito.SortedBuffer.Emits.{Emits-count, Emits-IsAscending}
use mosito.SortedBuffer.Merging.{is_nil, Live, Merging}
use mosito.SortedBuffer.Gathered.{gather-Gathered}

-- A column: one page or more, none of them empty, and the mark of the end.
abbrev pub IsFilled {ℓ} : {T : Type ℓ} → List (List T) → Type 0
IsFilled pages = (0 < length pages) × All (λ page. 0 < length page) pages

abbrev pub marked {ℓ} : {T : Type ℓ} → List (List T) → List (List T)
marked pages = pages ++ [] ∷ []

module _ {ℓ} {T : Type ℓ} (compare : T → T → Bool) (nothing : T) (is_null : T → Bool)
    (last : T) where
  record Opened (streams : List (List (List T))) : Type ℓ where
    tuples : List T
    itrs : List (List T)
    columns : List (List (List T))
    result : first_blocks nothing (map marked streams) ≡ some (tuples, itrs, columns)
    tuple_size : length tuples ≡ length streams
    itr_size : length itrs ≡ length streams
    column_size : length columns ≡ length streams
    holds :
        (i : ℕ)
        → i < length streams
        → Live
            (get_or tuples i nothing)
            (get_or itrs i [])
            (get_or columns i [])
            (get_or (map concat streams) i [])

  opened : (streams : List (List (List T))) → All IsFilled streams → Opened streams
  unfolding first_blocks
  opened [] h = record {
    tuples = [];
    itrs = [];
    columns = [];
    result = refl;
    tuple_size = refl;
    itr_size = refl;
    column_size = refl;
    holds = λ i k. absurd (omega (arith, k));
  }
  opened ([] ∷ streams) ((h, g), hs) = absurd (omega (arith, h))
  opened (([] ∷ pages) ∷ streams) ((h, (g, gs)), hs) = absurd (omega (arith, g))
  opened (((t ∷ left) ∷ pages) ∷ streams) ((h, (g, gs)), hs) =
      let r = opened streams hs in
      record {
        tuples = t ∷ r.tuples;
        itrs = left ∷ r.itrs;
        columns = marked pages ∷ r.columns;
        result = rw r.result refl;
        tuple_size = ap suc r.tuple_size;
        itr_size = ap suc r.itr_size;
        column_size = ap suc r.column_size;
        holds = λ i. live_at r i;
      }
    where
      live_at :
          (r : Opened streams) (i : ℕ)
          → i < suc (length streams)
          → Live
              (get_or (t ∷ r.tuples) i nothing)
              (get_or (left ∷ r.itrs) i [])
              (get_or (marked pages ∷ r.columns) i [])
              (get_or (map concat (((t ∷ left) ∷ pages) ∷ streams)) i [])
      live_at r zero k = record { pages = pages; marked = refl; filled = gs; made_of = refl }
      live_at r (suc i) k = r.holds i (omega (arith, k))

  none_nil :
      (streams : List (List (List T)))
      → All IsFilled streams
      → count is_nil (map concat streams) ≡ 0
  none_nil [] h = refl
  none_nil ([] ∷ streams) ((h, g), hs) = absurd (omega (arith, h))
  none_nil (([] ∷ pages) ∷ streams) ((h, (g, gs)), hs) = absurd (omega (arith, g))
  none_nil (((t ∷ left) ∷ pages) ∷ streams) (h, hs) = omega (arith, none_nil streams hs)

  length-map : (streams : List (List (List T))) → length (map concat streams) ≡ length streams
  length-map [] = refl
  length-map (s ∷ streams) = ap suc (length-map streams)

  some_tuple :
      (streams : List (List (List T)))
      → All IsFilled streams
      → 1 < length streams
      → 0 < length (concat (map concat streams))
  some_tuple [] h k = absurd (omega arith)
  some_tuple ([] ∷ streams) ((h, g), hs) k = absurd (omega (arith, h))
  some_tuple (([] ∷ pages) ∷ streams) ((h, (g, gs)), hs) k = absurd (omega (arith, g))
  some_tuple (((t ∷ left) ∷ pages) ∷ streams) h k = omega arith

  nothing_left :
      (p : T → Bool) (left : List (List T))
      → length (concat left) ≡ 0
      → (n : ℕ) → n + count p (concat left) ≡ n
  nothing_left p left h n = omega (arith, count_le p (concat left), h)

  -- A buffer before the first call of `get_sorted`.
  pub record IsNew (s : PcBuffer T) (streams : List (List (List T))) : Type ℓ where
    pub begin : s.begin ≡ false
    pub row : s.row ≡ length streams
    pub columns : s.columns ≡ map marked streams
    pub finished : s.finished ≡ 0

  begun : List ℕ → PcBuffer T → List T → List (List T) → List (List (List T)) → PcBuffer T
  begun b s tuples itrs columns = record s {
    itrs = itrs;
    columns = columns;
    lt = initialize compare nothing (nothing ∷ tuples) s.row b;
    begin = true;
  }

  start_lem :
      (b : List ℕ) (s : PcBuffer T) (streams : List (List (List T))) (r : Opened streams)
      → s.columns ≡ map marked streams
      → start compare nothing is_null last b s ≡ some (begun b s r.tuples r.itrs r.columns)
  unfolding start begun
  start_lem b s streams r e = rw (ap (first_blocks nothing) e ∙ r.result, start) refl

  same_call :
      (tuple_size : ℕ) (b : List ℕ) (block : List T) (s next : PcBuffer T)
      → s.begin ≡ false
      → next.begin ≡ true
      → start compare nothing is_null last b s ≡ some next
      → get_sorted compare nothing is_null last tuple_size b block s
        ≡ get_sorted compare nothing is_null last tuple_size b block next
  unfolding get_sorted
  same_call tuple_size b block s next e f g = rw (e, f, g, get_sorted) refl

  first_call :
      (fuel tuple_size : ℕ) (b : List ℕ) (block : List T) (s next : PcBuffer T)
      → s.begin ≡ false
      → next.begin ≡ true
      → start compare nothing is_null last b s ≡ some next
      → gather compare nothing is_null last fuel tuple_size b block s
        ≡ gather compare nothing is_null last fuel tuple_size b block next
  unfolding gather
  first_call zero tuple_size b block s next e f g = refl
  first_call (suc fuel) tuple_size b block s next e f g =
      rw (same_call tuple_size b block s next e f g, gather) refl

  module _ (order : IsOrder compare) where
    begun-Merging :
        (b : List ℕ) (s : PcBuffer T) (streams : List (List (List T))) (r : Opened streams)
        → IsNew s streams
        → length b ≡ length streams
        → 1 < length streams
        → All IsFilled streams
        → ((i : ℕ) → IsAscending compare (get_or (map concat streams) i []))
        → All (λ x. compare last x ≡ false) (concat (map concat streams))
        → All (λ x. is_null x ≡ false) (concat (map concat streams))
        → Merging compare nothing is_null last
            (begun b s r.tuples r.itrs r.columns)
            (map concat streams)
    unfolding begun
    begun-Merging b s streams r new size many filled ascending within present =
        let (tour, same_l, same_n) =
          initialize-IsTournament compare nothing (nothing ∷ r.tuples) s.row b order
            (omega (arith, many, new.row)) (omega (arith, r.tuple_size, new.row))
            (size ∙ sym new.row) in
        record {
          begun = refl;
          tournament = tour;
          players = same_n;
          rows = length-map streams ∙ sym new.row;
          iterators = r.itr_size ∙ sym new.row;
          queues = r.column_size ∙ sym new.row;
          holds = λ i h. inl (
              subst
                (λ l.
                  Live (get_or l (suc i) nothing) (get_or r.itrs i []) (get_or r.columns i [])
                    (get_or (map concat streams) i []))
                (sym same_l) (r.holds i (omega (arith, h, new.row))));
          ended = new.finished ∙ sym (none_nil streams filled);
          ascending = ascending;
          within = within;
          present = present;
        }

    -- What `get_sorted` gives until it answers false. There are two columns or more, each of one page or
    -- more and an end mark, no page but that mark is empty, the tuples of each column are ascending,
    -- less than the last one, not null, not of size 0 nor longer than a page. Then each call that
    -- answers true stores as many tuples as a page has room for, and the caller gets the first of them, those that `assembling` counts. With
    -- some tuples more, between one and as many as a page has room for, that the last call throws
    -- away, the stored tuples are those of all columns, ascending.
    pub gather-merges :
        (fuel tuple_size : ℕ) (b : List ℕ) (block : List T) (s : PcBuffer T)
        (streams : List (List (List T)))
        → is_null last ≡ false
        → IsNew s streams
        → length b ≡ length streams
        → 1 < length streams
        → All IsFilled streams
        → ((i : ℕ) → IsAscending compare (get_or (map concat streams) i []))
        → All (λ x. compare last x ≡ false) (concat (map concat streams))
        → All (λ x. is_null x ≡ false) (concat (map concat streams))
        → 0 < tuple_size
        → tuple_size ≤ block_size
        → length (concat (map concat streams)) < fuel
        → (chunks : List (List T)) × (lost : List T) × (gather compare nothing is_null last fuel
              tuple_size b block s
            ≡ some (map (take (counted tuple_size)) chunks))
          × All (λ chunk. length chunk ≡ room tuple_size) chunks
          × (0 < length lost)
          × (length lost ≤ room tuple_size)
          × IsAscending compare (concat chunks ++ lost)
          × ((p : T → Bool)
              → count p (concat chunks ++ lost) ≡ count p (concat (map concat streams)))
    gather-merges fuel tuple_size b block s streams not_null new size many filled ascending within
          present n u f =
        let r = opened streams filled in
        let next = begun b s r.tuples r.itrs r.columns in
        let m = begun-Merging b s streams r new size many filled ascending within present in
        let g =
          gather-Gathered compare nothing is_null last order not_null fuel tuple_size b block next
            (map concat streams) n u m (some_tuple streams filled many) f in
        (
          g.chunks,
          g.lost,
          first_call fuel tuple_size b block s next new.begin m.begun
                (start_lem b s streams r new.columns)
              ∙ g.result,
          g.full,
          g.some_lost,
          g.at_most,
          Emits-IsAscending compare (concat g.chunks ++ g.lost) (map concat streams) g.left g.emits,
          λ p. sym (
              Emits-count compare p (concat g.chunks ++ g.lost) (map concat streams) g.left g.emits
              ∙ nothing_left p g.left g.no_more (count p (concat g.chunks ++ g.lost))),
        )
