-- ===== src/SortedBuffer/Pull.antt =====
-- One round of the loop of `get_sorted`.
use mosito.Base.{
  ℕ, suc, ◌-◌, ◌<◌, ◌≡◌, ◌≢◌, refl, ap, ap₂, sym, ◌∙◌, subst, inl, inr, arith, Bool, true, false,
  List, [], ◌∷◌, concat, length, get_or, set, All, if◌then◌else◌, get_or-set_self, get_or-set_ne,
  length-set,
}
use mosito.Heap.Same.{count}
use mosito.Heap.Sift.{IsOrder, eq_cases}
use mosito.LoserTree.{LoserTree, winner, load, win_tuple, replay}
use mosito.LoserTree.Won.{Won-player}
use mosito.LoserTree.Replay.{replay-IsTournament}
use mosito.Runs.Ascending.{IsAscending}
use mosito.SortedBuffer.{PcBuffer}
use mosito.SortedBuffer.Merging.{
  is_nil, some_left, All-part, All-set, Live, Holds, Holds-same, Merging, least_left,
}

module _ {ℓ} {T : Type ℓ} (compare : T → T → Bool) (nothing : T) (is_null : T → Bool) (last : T)
    (order : IsOrder compare) (filled : is_null last ≡ false) where
  -- The player who has won, as an index.
  pub winner_inside :
      (s : PcBuffer T) (rests : List (List T))
      → Merging compare nothing is_null last s rests
      → (suc (winner compare nothing s.lt - 1) ≡ winner compare nothing s.lt)
        × (winner compare nothing s.lt - 1 < s.row)
  unfolding winner
  winner_inside s rests m =
      let p =
        Won-player compare nothing s.lt.n _ s.lt.l s.lt.b 1 (get_or s.lt.b 0 0) m.tournament.won in
      (omega (arith, p.0), omega (arith, p.0, p.1, m.players))

  tuple_of :
      (t : LoserTree T)
      → get_or t.l (winner compare nothing t) nothing ≡ win_tuple compare nothing t
  unfolding winner win_tuple
  tuple_of t = refl

  -- While anything is left the column of the winner has not ended.
  pub winner_lives :
      (s : PcBuffer T) (rests : List (List T))
      → Merging compare nothing is_null last s rests
      → 0 < length (concat rests)
      → Live
          (win_tuple compare nothing s.lt)
          (get_or s.itrs (winner compare nothing s.lt - 1) [])
          (get_or s.columns (winner compare nothing s.lt - 1) [])
          (get_or rests (winner compare nothing s.lt - 1) [])
  winner_lives s rests m h =
      let i = winner compare nothing s.lt - 1 in
      let (back, inside) = winner_inside s rests m in
      let here : get_or s.lt.l (suc i) nothing ≡ win_tuple compare nothing s.lt =
        ap (λ j. get_or s.lt.l j nothing) back ∙ tuple_of s.lt in
      elim (m.holds i inside) [
        | inl l ↦
            subst (λ t. Live t (get_or s.itrs i []) (get_or s.columns i []) (get_or rests i []))
              here l
        | inr l ↦
            let (j, x, xs, k, e) = some_left rests h in
            absurd (
              last_first x
                (subst (All (λ y. compare (win_tuple compare nothing s.lt) y ≡ true)) e
                  (All-part _ rests j (least_left compare nothing is_null last s rests order m))).0
                (sym here ∙ l.1)
                (subst (All (λ y. compare last y ≡ false)) e (All-part _ rests j m.within)).0)
      ]
    where
      last_first :
          (x : T)
          → compare (win_tuple compare nothing s.lt) x ≡ true
          → win_tuple compare nothing s.lt ≡ last
          → compare last x ≡ false
          → ⊥
      last_first x e f g = cc (e, f, g)

  -- The tuple of the winner is not null.
  winner_present :
      (s : PcBuffer T) (rests : List (List T))
      → Merging compare nothing is_null last s rests
      → is_null (win_tuple compare nothing s.lt) ≡ false
  winner_present s rests m =
      let i = winner compare nothing s.lt - 1 in
      let (back, inside) = winner_inside s rests m in
      let here : get_or s.lt.l (suc i) nothing ≡ win_tuple compare nothing s.lt =
        ap (λ j. get_or s.lt.l j nothing) back ∙ tuple_of s.lt in
      elim (m.holds i inside) [
        | inl l ↦
            ap is_null (sym here)
            ∙ (subst (All (λ y. is_null y ≡ false)) l.made_of (All-part _ rests i m.present)).0
        | inr l ↦ ap is_null (sym here ∙ l.1) ∙ filled
      ]

  tail-IsAscending :
      (r : List T) (t : T) (tail : List T)
      → r ≡ t ∷ tail
      → IsAscending compare r
      → IsAscending compare tail
  tail-IsAscending r t tail e h = (subst (IsAscending compare) e h).1

  -- Another tuple at the winner's place.
  pub loaded :
      (s next : PcBuffer T) (rests : List (List T)) (tail : List T) (t : T)
      → Merging compare nothing is_null last s rests
      → get_or rests (winner compare nothing s.lt - 1) [] ≡ win_tuple compare nothing s.lt ∷ tail
      → next.lt ≡ s.lt
      → next.row ≡ s.row
      → next.begin ≡ true
      → next.finished ≡ count is_nil (set rests (winner compare nothing s.lt - 1) tail)
      → length next.itrs ≡ s.row
      → length next.columns ≡ s.row
      → ((j : ℕ)
          → j ≢ winner compare nothing s.lt - 1
          → (get_or next.itrs j [] ≡ get_or s.itrs j [])
            × (get_or next.columns j [] ≡ get_or s.columns j []))
      → Holds compare nothing is_null last t
          (get_or next.itrs (winner compare nothing s.lt - 1) [])
          (get_or next.columns (winner compare nothing s.lt - 1) [])
          tail
      → (lt : LoserTree T) × (replay compare nothing is_null
            (winner compare nothing s.lt)
            (load compare nothing (winner compare nothing s.lt) t next.lt)
          ≡ (0, lt))
        × Merging compare nothing is_null last
            (record next { lt = lt })
            (set rests (winner compare nothing s.lt - 1) tail)
  loaded s next rests tail t m e same_lt same_row begun count_nil sizes queues other here =
      let w = winner compare nothing s.lt in
      let i = w - 1 in
      let (back, inside) = winner_inside s rests m in
      let (lt, played, tour, same_n, same_l) =
        replay-IsTournament compare nothing is_null s.lt t order m.tournament in
      let size : i < length rests = omega (arith, inside, m.rows) in
      let at_winner : get_or lt.l (suc i) nothing ≡ t =
        ap₂ (λ l j. get_or l j nothing) same_l back
        ∙ get_or-set_self s.lt.l w t nothing
            (omega (arith, m.tournament.slots, m.players, inside, back)) in
      let after : Merging compare nothing is_null last (record next { lt = lt })
          (set rests i tail) =
        record {
          begun = begun;
          tournament = tour;
          players = same_n ∙ m.players ∙ sym same_row;
          rows = length-set rests i tail ∙ m.rows ∙ sym same_row;
          iterators = sizes ∙ sym same_row;
          queues = queues ∙ sym same_row;
          holds = λ j h. elim (eq_cases j i) [
            | inl f ↦
                subst
                  (λ k.
                    Holds compare nothing is_null last (get_or lt.l (suc k) nothing)
                      (get_or next.itrs k []) (get_or next.columns k [])
                      (get_or (set rests i tail) k []))
                  (sym f)
                  (Holds-same compare nothing is_null last t _ _ _ _ _ tail _ (sym at_winner) refl
                    refl (sym (get_or-set_self rests i tail [] size)) here)
            | inr f ↦
                Holds-same compare nothing is_null last _ _ _ _ _ _ _ _
                  (sym (
                    ap (λ l. get_or l (suc j) nothing) same_l
                    ∙ get_or-set_ne s.lt.l w (suc j) t nothing (λ z. f (omega (arith, z, back)))))
                  (sym (other j f).0) (sym (other j f).1)
                  (sym (get_or-set_ne rests i j tail [] (λ z. f (sym z))))
                  (m.holds j (omega (arith, h, same_row)))
          ];
          ended = count_nil;
          ascending = λ j. elim (eq_cases j i) [
            | inl f ↦
                subst (IsAscending compare)
                  (sym (
                    ap (λ k. get_or (set rests i tail) k []) f
                    ∙ get_or-set_self rests i tail [] size))
                  (tail-IsAscending (get_or rests i []) _ tail e (m.ascending i))
            | inr f ↦
                subst (IsAscending compare) (sym (get_or-set_ne rests i j tail [] (λ z. f (sym z))))
                  (m.ascending j)
          ];
          within = All-set (λ x. compare last x ≡ false) rests i _ tail e m.within;
          present = All-set (λ x. is_null x ≡ false) rests i _ tail e m.present;
        } in
      (
        lt,
        ap (λ x. replay compare nothing is_null w (load compare nothing w t x)) same_lt
            ∙ played
            ∙ ap (λ b. ((if b then 1 else 0), lt))
                (winner_present (record next { lt = lt }) (set rests i tail) after),
        after,
      )
