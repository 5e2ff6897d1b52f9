-- ===== src/LoserTree/Replay.antt =====
-- `replay` plays the matches above a player's leaf again.
use mosito.Base.{
  ℕ, ◌+◌, ◌*◌, ◌/◌, ◌≤◌, ◌<◌, ◌≡◌, ◌≢◌, refl, ap, sym, ◌∙◌, subst, inl, inr, arith, Bool, List,
  get_or, set, length, leb, leb→le, if◌then◌else◌, Bool-cases, get_or-set_ne, length-set,
}
use mosito.Heap.Sift.{IsOrder}
use mosito.LoserTree.{
  LoserTree, win, lose, leaf, replay_at, replay_from, replay, load, winner, win_tuple,
}
use mosito.LoserTree.Above.{Above, Above_le}
use mosito.LoserTree.Won.{
  Decided, Decided-swap, win-lose, Won, alone, match, IsTournament, Won-Above, Won-player,
  Won-frame,
}
use mosito.LoserTree.Children.{
  Children, left-Children, right-Children, bigger, write_first, write_second, write_other,
  write-length,
}
use mosito.LoserTree.Climb.{last_round, replay_up}

module _ {ℓ} {T : Type ℓ} (compare : T → T → Bool) (nothing : T) where
  -- The array behind the round at the first node, `v`.
  abbrev started : List T → ℕ → ℕ → List ℕ → List ℕ
  started m w v b =
      set (set b 0 (win compare nothing m w (get_or b v 0))) v
        (lose compare nothing m w (get_or (set b 0 (win compare nothing m w (get_or b v 0))) v 0))

  module _ (n : ℕ) (place : ℕ → ℕ) (order : IsOrder compare) (l m : List T) (b : List ℕ) (w : ℕ)
      (same : (i : ℕ) → i ≢ w → get_or m i nothing ≡ get_or l i nothing)
      (players : length b ≡ n) where
    -- The rounds up to node `v` are done: the matches there are played over `m`.
    pub record Risen (v : ℕ) : Type 0 where
      pub c : List ℕ
      pub rounds :
          replay_from compare nothing (place w / 2) m (place w / 2) (started m w (place w / 2) b)
          ≡ replay_from compare nothing v m v c
      pub won : Won compare nothing n place m c v (get_or c 0 0)
      pub outside : (x : ℕ) → x ≢ 0 → (Above v x → ⊥) → get_or c x 0 ≡ get_or b x 0
      pub size : length c ≡ length b

    abbrev Wins : List ℕ → ℕ → ℕ → Type 0
    Wins c v x = Won compare nothing n place m c v x

    -- Who has won at both children has a match at the parent.
    Joins : ℕ → ℕ → ℕ → Type 0
    Joins v u other =
        (c : List ℕ) (x y z : ℕ)
        → Wins c u x
        → Wins c other y
        → Decided compare nothing m x y z (get_or c v 0)
        → Wins c v z

    join_left : (v : ℕ) → 0 < v → v < n → Joins v (2 * v) (2 * v + 1)
    unfolding Joins
    join_left v h k c x y z p q d = Won.match v z x y h k p q d

    join_right : (v : ℕ) → 0 < v → v < n → Joins v (2 * v + 1) (2 * v)
    unfolding Joins
    join_right v h k c x y z p q d =
        Won.match v z y x h k q p (Decided-swap compare nothing m x y z (get_or c v 0) d)

    -- One match: `c` differs from `c0` at `v`, where the loser is, and at 0, where the winner is. The
    -- matches of the other child stay as they were played over `l`.
    one_match :
        (v u other x y : ℕ) (c0 c : List ℕ)
        → Children v u other
        → Joins v u other
        → Wins c0 u x
        → Above u (place w)
        → ((i : ℕ) → i ≢ 0 → (Above u i → ⊥) → get_or c0 i 0 ≡ get_or b i 0)
        → Won compare nothing n place l b other y
        → ((i : ℕ) → i ≢ 0 → i ≢ v → get_or c i 0 ≡ get_or c0 i 0)
        → Decided compare nothing m x y (get_or c 0 0) (get_or c v 0)
        → Wins c v (get_or c 0 0)
          × ((i : ℕ) → i ≢ 0 → (Above v i → ⊥) → get_or c i 0 ≡ get_or b i 0)
    unfolding Joins
    one_match v u other x y c0 c k join here a before there f d =
        let far = λ (t i : ℕ) (h : v < t) (g : Above t i). bigger v t i h (Above_le t i g) in
        (
          join c x y (get_or c 0 0)
              (Won-frame compare nothing n place m m c0 c u x
                (λ i g. f i (far u i k.after g).0 (far u i k.after g).1) (λ i g. refl) here)
              (Won-frame compare nothing n place l m b c other y
                (λ i g.
                  f i (far other i k.other_after g).0 (far other i k.other_after g).1
                  ∙ before i (far other i k.other_after g).0 (λ t. k.none_both i t g))
                (λ i g.
                  same i (λ e. k.none_both (place w) a (subst (λ j. Above other (place j)) e g)))
                there)
              d,
          λ i h g. f i h (λ e. g (Above.self i e)) ∙ before i h (λ t. g (k.above i t)),
        )

    win-Decided :
        (x y ww loser : ℕ)
        → ww ≡ win compare nothing m x y
        → loser ≡ lose compare nothing m x y
        → Decided compare nothing m x y ww loser
    win-Decided x y ww loser e f =
        subst (λ z. Decided compare nothing m x y z loser) (sym e)
          (subst (λ z. Decided compare nothing m x y (win compare nothing m x y) z) (sym f)
            (win-lose compare nothing m x y order))

    first_round :
        (v u other y : ℕ)
        → Children v u other
        → Joins v u other
        → v < n
        → Wins b u w
        → place w ≡ u
        → Won compare nothing n place l b other y
        → get_or b v 0 ≡ y
        → Risen v
    first_round v u other y k join inside here e there f =
        let old =
          get_or-set_ne b 0 v (win compare nothing m w (get_or b v 0)) 0
            (λ z. omega (arith, z, k.inner))
          ∙ f in
        let now =
          write_first b 0 v (win compare nothing m w (get_or b v 0))
            (lose compare nothing m w
              (get_or (set b 0 (win compare nothing m w (get_or b v 0))) v 0))
            (λ z. omega (arith, z, k.inner)) (omega (arith, players, inside)) in
        let lost =
          write_second b 0 v (win compare nothing m w (get_or b v 0))
            (lose compare nothing m w
              (get_or (set b 0 (win compare nothing m w (get_or b v 0))) v 0))
            (omega (arith, players, inside)) in
        let r =
          one_match v u other w y b (started m w v b) k join here (Above.self (place w) e)
            (λ i h g. refl) there
            (λ i h g. write_other b 0 v _ _ i (λ z. h (sym z)) (λ z. g (sym z)))
            (win-Decided w y _ _ (now ∙ ap (win compare nothing m w) f)
              (lost ∙ ap (lose compare nothing m w) old)) in
        record {
          c = started m w v b;
          rounds =
              ap (λ q. replay_from compare nothing q m q (started m w q b))
                (ap (λ q. q / 2) e ∙ k.half);
          won = r.0;
          outside = r.1;
          size = write-length b 0 v _ _;
        }

    next_round :
        (v u other y : ℕ)
        → Children v u other
        → Joins v u other
        → v < n
        → Above u (place w)
        → Won compare nothing n place l b other y
        → get_or b v 0 ≡ y
        → Risen u
        → Risen v
    next_round v u other y k join inside a there f r0 =
        let c = r0.c in
        let old =
          r0.outside v (λ z. omega (arith, z, k.inner))
            (λ g. omega (arith, k.after, Above_le u v g))
          ∙ f in
        let lost =
          write_first c v 0 (lose compare nothing m (get_or c v 0) (get_or c 0 0))
            (win compare nothing m (get_or c v 0) (get_or c 0 0)) (λ z. omega (arith, z, k.inner))
            (omega (arith, players, r0.size, inside)) in
        let now =
          write_second c v 0 (lose compare nothing m (get_or c v 0) (get_or c 0 0))
            (win compare nothing m (get_or c v 0) (get_or c 0 0))
            (omega (arith, players, r0.size, inside)) in
        let r =
          one_match v u other (get_or c 0 0) y c (replay_at compare nothing m v c) k join r0.won a
            r0.outside there
            (λ i h g. unfold replay_at in write_other c v 0 _ _ i (λ z. g (sym z)) (λ z. h (sym z)))
            (unfold replay_at in
              Decided-swap compare nothing m y (get_or c 0 0) _ _ (
                win-Decided y (get_or c 0 0) _ _
                  (now ∙ ap (λ z. win compare nothing m z (get_or c 0 0)) old)
                  (lost ∙ ap (λ z. lose compare nothing m z (get_or c 0 0)) old))) in
        record {
          c = replay_at compare nothing m v c;
          rounds = r0.rounds ∙ replay_up compare nothing m v u c k.half k.inner;
          won = r.0;
          outside = r.1;
          size = unfold replay_at in write-length c v 0 _ _ ∙ r0.size;
        }

    at_leaf : (u x : ℕ) → Won compare nothing n place l b u x → n ≤ u → place x ≡ u
    at_leaf u x (alone _ _ h e p q) k = e
    at_leaf u x (match _ _ y z p h left right d) k = absurd (omega (arith, h, k))

    -- The match at `v` when `w` comes from its child `u`.
    from_child :
        (v u other x y : ℕ)
        → Children v u other
        → Joins v u other
        → v < n
        → Won compare nothing n place l b u x
        → Won compare nothing n place l b other y
        → w ≡ x
        → get_or b v 0 ≡ y
        → (u < n → Risen u)
        → Risen v
    from_child v u other x y k join inside here there e f deeper =
        let mine : Won compare nothing n place l b u w =
          subst (λ z. Won compare nothing n place l b u z) (sym e) here in
        let (p, q) = Won-player compare nothing n place l b u w mine in
        elim (Bool-cases (leb n u)) [
          | inl t ↦
              first_round v u other y k join inside
                (Won.alone u w (leb→le n u t) (at_leaf u w mine (leb→le n u t)) p q)
                (at_leaf u w mine (leb→le n u t)) there f
          | inr t ↦
              next_round v u other y k join inside (Won-Above compare nothing n place l b u w mine)
                there f (deeper (ground (arith, t)))
        ]

    risen : (v x : ℕ) → Won compare nothing n place l b v x → w ≡ x → v < n → Risen v
    risen v x (alone _ _ h e p q) f k = absurd (omega (arith, h, k))
    risen v x (match _ _ y z p h left right d) f k = elim d.sides [
      | inl s ↦
          from_child v (2 * v) (2 * v + 1) y z (left-Children v p) (join_left v p h) h left right
            (f ∙ s.0) s.1 (risen (2 * v) y left (f ∙ s.0))
      | inr s ↦
          from_child v (2 * v + 1) (2 * v) z y (right-Children v p) (join_right v p h) h right left
            (f ∙ s.0) s.1 (risen (2 * v + 1) z right (f ∙ s.0))
    ]

  -- A played tournament in which the winner gets a new tuple is again one, once it is replayed from
  -- the winner: it has the same players and tuples but that one. The answer is 1 exactly when the
  -- tuple of the new winner is null.
  pub replay-IsTournament :
      (is_null : T → Bool) (t : LoserTree T) (new_one : T)
      → IsOrder compare
      → IsTournament compare nothing t
      → (t' : LoserTree T) × (replay compare nothing is_null
            (winner compare nothing t)
            (load compare nothing (winner compare nothing t) new_one t)
          ≡ ((if is_null (win_tuple compare nothing t') then 1 else 0), t'))
        × IsTournament compare nothing t'
        × (t'.n ≡ t.n)
        × (t'.l ≡ set t.l (winner compare nothing t) new_one)
  unfolding replay load winner win_tuple
  replay-IsTournament is_null t new_one order k =
      let w = get_or t.b 0 0 in
      let place = leaf t.n t.low_ext t.offset in
      let m = set t.l w new_one in
      let r =
        risen t.n place order t.l m t.b w
          (λ i n. get_or-set_ne t.l w i new_one nothing (λ e. n (sym e))) k.nodes 1 w k.won refl
          k.many in
      (
        record t { l = m; b = r.c },
        ap
            (λ c. (
              (if is_null (get_or m (get_or c 0 0) nothing) then 1 else 0),
              record t { l = m; b = c },
            ))
            (r.rounds ∙ last_round compare nothing m r.c),
        record {
          many = k.many;
          nodes = r.size ∙ k.nodes;
          slots = length-set t.l w new_one ∙ k.slots;
          placing = k.placing;
          won = r.won;
        },
        refl,
        refl,
      )
