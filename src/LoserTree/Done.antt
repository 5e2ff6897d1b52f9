-- ===== src/LoserTree/Done.antt =====
-- The matches below a node are played when its last player has been reached.
use mosito.Base.{
  ℕ, suc, ◌+◌, ◌-◌, ◌*◌, ◌≤◌, ◌<◌, ◌≡◌, refl, ap, ap₂, sym, ◌∙◌, subst, arith, Bool, List, get_or,
  set, length, length-set, get_or-set_self, get_or-set_ne,
}
use mosito.Heap.Sift.{IsOrder}
use mosito.LoserTree.{win, lose, play_from, play}
use mosito.LoserTree.Above.{Above, Above_le, Above_left, Above_right, apart}
use mosito.LoserTree.Won.{Decided, Decided-swap, win-lose, Won, Won-frame}
use mosito.LoserTree.Rising.{play_left, play_right}
use mosito.LoserTree.Places.{place}
use mosito.LoserTree.Turns.{act, run, act_waits, act_odd, act_pair, length-run}

one_on : (i : ℕ) → i + 1 ≡ suc i
one_on i = omega arith

two_on : (i : ℕ) → i + 1 + 1 ≡ suc (suc i)
two_on i = omega arith

module _ {ℓ} {T : Type ℓ} (compare : T → T → Bool) (nothing : T) (n s : ℕ) (less : s < n)
    (last : n ≤ 2 * s) (l : List T) (start : List ℕ) where
  -- The matches at `v` and below are played: what is left to do is the way up from `v`.
  pub record Done (v before after : ℕ) : Type 0 where
    pub w : ℕ
    pub c : List ℕ
    pub reached :
        run compare nothing n s less last l start after ≡ play_from compare nothing v l v w c
    pub won : Won compare nothing n (place n s less last) l c v w
    pub outside :
        (x : ℕ)
        → (Above v x → ⊥)
        → get_or c x 0 ≡ get_or (run compare nothing n s less last l start before) x 0
    pub size : length c ≡ n

  abbrev Wins : List ℕ → ℕ → ℕ → Type 0
  Wins c v x = Won compare nothing n (place n s less last) l c v x

  -- The winners at the children have met at `v`.
  matched :
      (v x y w loser : ℕ) (b : List ℕ)
      → Wins b (2 * v) x
      → Wins b (2 * v + 1) y
      → Decided compare nothing l x y w loser
      → 0 < v
      → v < n
      → length b ≡ n
      → Wins (set b v loser) v w
  matched v x y w loser b p q d h k size =
      Won.match v w x y h k
        (Won-frame compare nothing n (place n s less last) l l b (set b v loser) (2 * v) x
          (λ i a. get_or-set_ne b v i loser 0 (λ e. omega (arith, e, h, Above_le (2 * v) i a)))
          (λ i a. refl) p)
        (Won-frame compare nothing n (place n s less last) l l b (set b v loser) (2 * v + 1) y
          (λ i a. get_or-set_ne b v i loser 0 (λ e. omega (arith, e, h, Above_le (2 * v + 1) i a)))
          (λ i a. refl) q)
        (subst (λ z. Decided compare nothing l x y w z)
          (sym (get_or-set_self b v loser 0 (omega (arith, k, size)))) d)

  outside_set :
      (v loser : ℕ) (b : List ℕ) (x : ℕ)
      → (Above v x → ⊥)
      → get_or (set b v loser) x 0 ≡ get_or b x 0
  outside_set v loser b x a = get_or-set_ne b v x loser 0 (λ e. a (Above.self x (sym e)))

  -- Both children are leaves.
  pub two_leaves :
      (v i : ℕ)
      → IsOrder compare
      → length start ≡ n
      → 0 < v
      → v < n
      → n ≤ 2 * v
      → place n s less last (i + 1) ≡ 2 * v
      → place n s less last (i + 1 + 1) ≡ 2 * v + 1
      → i + 1 < n
      → Done v i (i + 1 + 1)
  unfolding run play
  two_leaves v i order size h k leaves e f inside =
      let b = run compare nothing n s less last l start i in
      let one : place n s less last (suc i) ≡ 2 * v = ap (place n s less last) (omega arith) ∙ e in
      let two : place n s less last (suc (suc i)) ≡ 2 * v + 1 =
        ap (place n s less last) (omega arith) ∙ f in
      let played : run compare nothing n s less last l start (suc (suc i))
          ≡ play compare nothing l v (suc i) (suc (suc i)) b =
        act_pair compare nothing n s less last l start (suc (suc i)) v
          (act compare nothing n s less last l start (suc i) b) two (λ z. omega (arith, z, leaves))
        ∙ ap (play compare nothing l v (suc (suc i) - 1) (suc (suc i)))
            (act_waits compare nothing n s less last l start (suc i) b (omega (arith, one)))
        ∙ ap (λ t. play compare nothing l v t (suc (suc i)) b) (omega arith) in
      record {
        w = win compare nothing l (suc i) (suc (suc i));
        c = set b v (lose compare nothing l (suc i) (suc (suc i)));
        reached = ap (run compare nothing n s less last l start) (two_on i) ∙ played;
        won =
            matched v (suc i) (suc (suc i)) _ _ b
              (Won.alone (2 * v) (suc i) leaves one (omega arith) (omega (arith, inside)))
              (Won.alone (2 * v + 1) (suc (suc i)) (omega (arith, leaves)) two (omega arith)
                (omega (arith, inside)))
              (win-lose compare nothing l (suc i) (suc (suc i)) order) h k
              (length-run compare nothing n s less last l start i ∙ size);
        outside = λ x a. outside_set v _ b x a;
        size = length-set b v _ ∙ length-run compare nothing n s less last l start i ∙ size;
      }

  -- The right child is a leaf, and the left one is not.
  pub odd_leaf :
      (v i j : ℕ)
      → IsOrder compare
      → length start ≡ n
      → 0 < v
      → 2 * v + 1 ≡ n
      → place n s less last (j + 1) ≡ 2 * v + 1
      → j < n
      → Done (2 * v) i j
      → Done v i (j + 1)
  unfolding run play
  odd_leaf v i j order size h k e inside d =
      let b = run compare nothing n s less last l start j in
      let x = d.w in
      let stored : b ≡ set d.c v x = d.reached ∙ play_left compare nothing l (2 * v) v x d.c in
      let full : length b ≡ n = length-run compare nothing n s less last l start j ∙ size in
      let now : get_or b v 0 ≡ x =
        ap (λ t. get_or t v 0) stored ∙ get_or-set_self d.c v x 0 (omega (arith, k, d.size)) in
      let mine : place n s less last (suc j) ≡ n = ap (place n s less last) (omega arith) ∙ e ∙ k in
      let played : run compare nothing n s less last l start (suc j)
          ≡ play compare nothing l v x (suc j) b =
        act_odd compare nothing n s less last l start (suc j) b mine (omega (arith, k))
        ∙ ap₂ (λ t u. play compare nothing l t (get_or b u 0) (suc j) b) (omega (arith, k))
            (omega (arith, k))
        ∙ ap (λ t. play compare nothing l v t (suc j) b) now in
      let there : Wins b (2 * v) x =
        subst (λ t. Wins t (2 * v) x) (sym stored)
          (Won-frame compare nothing n (place n s less last) l l d.c (set d.c v x) (2 * v) x
            (λ t a. get_or-set_ne d.c v t x 0 (λ z. omega (arith, z, h, Above_le (2 * v) t a)))
            (λ t a. refl) d.won) in
      record {
        w = win compare nothing l x (suc j);
        c = set b v (lose compare nothing l x (suc j));
        reached = ap (run compare nothing n s less last l start) (one_on j) ∙ played;
        won =
            matched v x (suc j) _ _ b there
              (Won.alone (2 * v + 1) (suc j) (omega (arith, k)) (mine ∙ sym k) (omega arith)
                (omega (arith, inside)))
              (win-lose compare nothing l x (suc j) order) h (omega (arith, k)) full;
        outside = λ t a.
            outside_set v _ b t a
            ∙ ap (λ y. get_or y t 0) stored
            ∙ outside_set v x d.c t a
            ∙ d.outside t (λ z. a (Above_left v t h z));
        size = length-set b v _ ∙ full;
      }

  -- No child is a leaf.
  pub two_parts :
      (v i j k : ℕ)
      → IsOrder compare
      → length start ≡ n
      → 0 < v
      → v < n
      → Done (2 * v) i j
      → Done (2 * v + 1) j k
      → Done v i k
  unfolding run
  two_parts v i j k order size h inside d e =
      let x = d.w in
      let b = e.c in
      let stored : run compare nothing n s less last l start j ≡ set d.c v x =
        d.reached ∙ play_left compare nothing l (2 * v) v x d.c in
      let before =
        λ (t : ℕ) (a : Above (2 * v + 1) t → ⊥). e.outside t a ∙ ap (λ y. get_or y t 0) stored in
      let now : get_or b v 0 ≡ x =
        before v (λ z. omega (arith, Above_le (2 * v + 1) v z))
        ∙ get_or-set_self d.c v x 0 (omega (arith, inside, d.size)) in
      let there : Wins b (2 * v) x =
        Won-frame compare nothing n (place n s less last) l l d.c b (2 * v) x
          (λ t a.
            before t (λ z. apart (2 * v) t (omega (arith, h)) a z)
            ∙ get_or-set_ne d.c v t x 0 (λ z. omega (arith, z, h, Above_le (2 * v) t a)))
          (λ t a. refl) d.won in
      record {
        w = win compare nothing l e.w x;
        c = set b v (lose compare nothing l e.w x);
        reached =
            e.reached
            ∙ play_right compare nothing l v e.w b h
            ∙ ap
                (λ t.
                  play_from compare nothing v l v (win compare nothing l e.w t)
                    (set b v (lose compare nothing l e.w t)))
                now;
        won =
            matched v x e.w _ _ b there e.won
              (Decided-swap compare nothing l e.w x _ _ (win-lose compare nothing l e.w x order)) h
              inside e.size;
        outside = λ t a.
            outside_set v _ b t a
            ∙ before t (λ z. a (Above_right v t z))
            ∙ outside_set v x d.c t a
            ∙ d.outside t (λ z. a (Above_left v t h z));
        size = length-set b v _ ∙ e.size;
      }
