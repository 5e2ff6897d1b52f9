-- ===== src/SortedBuffer/Rounds.antt =====
-- What a round of the loop of `get_sorted` does, by what is left of the winner's column.
use mosito.Base.{
  ℕ, ◌+◌, ◌-◌, ◌<◌, ◌≡◌, ◌≢◌, refl, ap, sym, ◌∙◌, ◌⊎◌, inl, inr, arith, Bool, true, false, List, [],
  ◌∷◌, ◌++◌, concat, length, get_or, set, All, if◌then◌else◌, ◌==◌, Bool-cases, get_or-set_self,
  get_or-set_ne, length-set,
}
use mosito.Heap.Same.{bit, count, count-set}
use mosito.Heap.Sift.{IsOrder}
use mosito.LoserTree.{LoserTree, winner, load, win_tuple, replay}
use mosito.SortedBuffer.{PcBuffer, Next, next_tuple}
use mosito.SortedBuffer.Merging.{is_nil, all_nil, nil_all, part_le, Merging}
use mosito.SortedBuffer.Pull.{winner_inside, winner_lives, loaded}

module _ {ℓ} {T : Type ℓ} (compare : T → T → Bool) (nothing : T) (is_null : T → Bool)
    (last : T) where
  next_itr :
      (i : ℕ) (s : PcBuffer T) (t : T) (left : List T)
      → get_or s.itrs i [] ≡ t ∷ left
      → next_tuple compare nothing is_null last i s
        ≡ Next.loads t (record s { itrs = set s.itrs i left })
  unfolding next_tuple
  next_itr i s t left e = rw (e, next_tuple) refl

  next_page :
      (i : ℕ) (s : PcBuffer T) (t : T) (left : List T) (pages : List (List T))
      → get_or s.itrs i [] ≡ []
      → get_or s.columns i [] ≡ (t ∷ left) ∷ pages
      → next_tuple compare nothing is_null last i s
        ≡ Next.loads t (record s { columns = set s.columns i pages; itrs = set s.itrs i left })
  unfolding next_tuple
  next_page i s t left pages e f = rw (e, f, next_tuple) refl

  next_end :
      (i : ℕ) (s : PcBuffer T) (pages : List (List T)) (b : Bool)
      → get_or s.itrs i [] ≡ []
      → get_or s.columns i [] ≡ [] ∷ pages
      → (s.finished + 1 == s.row) ≡ b
      → next_tuple compare nothing is_null last i s ≡ (
          if b
          then Next.over (record s { columns = set s.columns i pages; finished = s.finished + 1 })
          else Next.loads last
              (record s { columns = set s.columns i pages; finished = s.finished + 1 }))
  unfolding next_tuple
  next_end i s pages b e f g = rw (e, f, g, next_tuple) refl

  module _ (order : IsOrder compare) (filled : is_null last ≡ false) (s : PcBuffer T)
      (rests : List (List T)) (m : Merging compare nothing is_null last s rests) where
    abbrev pub i : ℕ
    i = winner compare nothing s.lt - 1

    -- The merge goes on without the front of the winner's column.
    pub record GoesOn (tail : List T) : Type ℓ where
      pub t : T
      pub next : PcBuffer T
      pub lt : LoserTree T
      pub moved : next_tuple compare nothing is_null last i s ≡ Next.loads t next
      pub played :
          replay compare nothing is_null
            (winner compare nothing s.lt)
            (load compare nothing (winner compare nothing s.lt) t next.lt)
          ≡ (0, lt)
      pub merging :
          Merging compare nothing is_null last (record next { lt = lt }) (set rests i tail)
      pub more : 0 < length (concat (set rests i tail))

    pub record Ends (tail : List T) : Type ℓ where
      pub ended : PcBuffer T
      pub moved : next_tuple compare nothing is_null last i s ≡ Next.over ended
      pub no_more : length (concat (set rests i tail)) ≡ 0

    inside : i < s.row
    inside = (winner_inside compare nothing is_null last order filled s rests m).1

    nils :
        (t : T) (tail : List T)
        → get_or rests i [] ≡ t ∷ tail
        → count is_nil (set rests i tail) ≡ s.finished + bit (is_nil tail)
    nils t tail e = omega (
      arith,
      m.ended,
      count-set is_nil rests i tail [] (omega (arith, inside, m.rows)),
      ap (λ r. bit (is_nil r)) e,
    )

    some_more : (x : T) (xs : List T) → 0 < length (concat (set rests i (x ∷ xs)))
    some_more x xs = omega (
      arith,
      part_le (set rests i (x ∷ xs)) i,
      ap length (get_or-set_self rests i (x ∷ xs) [] (omega (arith, inside, m.rows))),
    )

    from_itr :
        (t : T) (left : List T) (pages : List (List T))
        → get_or s.itrs i [] ≡ t ∷ left
        → get_or s.columns i [] ≡ pages ++ [] ∷ []
        → All (λ page. 0 < length page) pages
        → get_or rests i [] ≡ win_tuple compare nothing s.lt ∷ t ∷ (left ++ concat pages)
        → GoesOn (t ∷ (left ++ concat pages))
    from_itr t left pages e f g h =
        let tail = t ∷ (left ++ concat pages) in
        let next : PcBuffer T = record s { itrs = set s.itrs i left } in
        let (lt, played, merging) =
          loaded compare nothing is_null last order filled s next rests tail t m h refl refl m.begun
            (sym (nils _ tail h ∙ omega arith)) (length-set s.itrs i left ∙ m.iterators) m.queues
            (λ j n. (get_or-set_ne s.itrs i j left [] (λ z. n (sym z)), refl))
            (inl (record {
              pages = pages;
              marked = f;
              filled = g;
              made_of =
                  ap (λ r. t ∷ (r ++ concat pages))
                    (sym (get_or-set_self s.itrs i left [] (omega (arith, inside, m.iterators))));
            })) in
        record {
          t = t;
          next = next;
          lt = lt;
          moved = next_itr i s t left e;
          played = played;
          merging = merging;
          more = some_more t (left ++ concat pages);
        }

    from_page :
        (t : T) (left : List T) (pages : List (List T))
        → get_or s.itrs i [] ≡ []
        → get_or s.columns i [] ≡ (t ∷ left) ∷ (pages ++ [] ∷ [])
        → All (λ page. 0 < length page) pages
        → get_or rests i [] ≡ win_tuple compare nothing s.lt ∷ t ∷ (left ++ concat pages)
        → GoesOn (t ∷ (left ++ concat pages))
    from_page t left pages e f g h =
        let tail = t ∷ (left ++ concat pages) in
        let next : PcBuffer T = record s {
          columns = set s.columns i (pages ++ [] ∷ []);
          itrs = set s.itrs i left;
        } in
        let (lt, played, merging) =
          loaded compare nothing is_null last order filled s next rests tail t m h refl refl m.begun
            (sym (nils _ tail h ∙ omega arith)) (length-set s.itrs i left ∙ m.iterators)
            (length-set s.columns i (pages ++ [] ∷ []) ∙ m.queues)
            (λ j n. (
              get_or-set_ne s.itrs i j left [] (λ z. n (sym z)),
              get_or-set_ne s.columns i j (pages ++ [] ∷ []) [] (λ z. n (sym z)),
            ))
            (inl (record {
              pages = pages;
              marked =
                  get_or-set_self s.columns i (pages ++ [] ∷ []) []
                    (omega (arith, inside, m.queues));
              filled = g;
              made_of =
                  ap (λ r. t ∷ (r ++ concat pages))
                    (sym (get_or-set_self s.itrs i left [] (omega (arith, inside, m.iterators))));
            })) in
        record {
          t = t;
          next = next;
          lt = lt;
          moved = next_page i s t left (pages ++ [] ∷ []) e f;
          played = played;
          merging = merging;
          more = some_more t (left ++ concat pages);
        }

    -- The end of a column: of the last one exactly when nothing else is left.
    from_end :
        get_or s.itrs i [] ≡ []
        → get_or s.columns i [] ≡ [] ∷ []
        → get_or rests i [] ≡ win_tuple compare nothing s.lt ∷ []
        → GoesOn [] ⊎ Ends []
    from_end e f h =
        let count_now = nils _ [] h in
        let rows : length (set rests i []) ≡ s.row = length-set rests i [] ∙ m.rows in
        elim (Bool-cases (s.finished + 1 == s.row)) [
          | inl b ↦ inr (record {
            ended = record s { columns = set s.columns i []; finished = s.finished + 1 };
            moved = next_end i s [] true e f b;
            no_more = all_nil (set rests i []) (count_now ∙ ground (arith, b) ∙ sym rows);
          })
          | inr b ↦
              let next : PcBuffer T = record s {
                columns = set s.columns i [];
                finished = s.finished + 1;
              } in
              let (lt, played, merging) =
                loaded compare nothing is_null last order filled s next rests [] last m h refl refl
                  m.begun (sym count_now) m.iterators (length-set s.columns i [] ∙ m.queues)
                  (λ j n. (refl, get_or-set_ne s.columns i j [] [] (λ z. n (sym z))))
                  (inr (refl, refl)) in
              inl (record {
                t = last;
                next = next;
                lt = lt;
                moved = next_end i s [] false e f b;
                played = played;
                merging = merging;
                more =
                    not_zero (length (concat (set rests i [])))
                      (λ z. unequal b (sym count_now ∙ nil_all (set rests i []) z ∙ rows));
              })
        ]
      where
        not_zero : (n : ℕ) → n ≢ 0 → 0 < n
        not_zero n h = omega (arith, h)

        unequal : (s.finished + 1 == s.row) ≡ false → s.finished + 1 ≢ s.row
        unequal b e = ground (arith, b, e)

    by_column :
        (itr : List T) (pages : List (List T))
        → get_or s.itrs i [] ≡ itr
        → get_or s.columns i [] ≡ pages ++ [] ∷ []
        → All (λ page. 0 < length page) pages
        → get_or rests i [] ≡ win_tuple compare nothing s.lt ∷ (itr ++ concat pages)
        → GoesOn (itr ++ concat pages) ⊎ Ends (itr ++ concat pages)
    by_column (t ∷ left) pages e f g h = inl (from_itr t left pages e f g h)
    by_column [] [] e f g h = from_end e f h
    by_column [] ([] ∷ pages) e f (g, gs) h = absurd (omega (arith, g))
    by_column [] ((t ∷ left) ∷ pages) e f (g, gs) h = inl (from_page t left pages e f gs h)

    -- While anything is left, a round takes the front of the winner's column, and the merge goes on
    -- exactly when something is left then.
    pub round :
        0 < length (concat rests)
        → (tail : List T) × (get_or rests i [] ≡ win_tuple compare nothing s.lt ∷ tail)
          × (GoesOn tail ⊎ Ends tail)
    round h =
        let l = winner_lives compare nothing is_null last order filled s rests m h in
        (
          get_or s.itrs i [] ++ concat l.pages,
          l.made_of,
          by_column (get_or s.itrs i []) l.pages refl l.marked l.filled l.made_of,
        )
