-- ===== src/LoserTree/Won.antt =====
-- What a finished part of the tournament is, whatever was done with equal tuples.
use mosito.Base.{
  ℕ, ◌+◌, ◌*◌, ◌/◌, ◌≤◌, ◌<◌, ◌≡◌, refl, sym, ◌∙◌, subst, ◌⊎◌, inl, inr, arith, Bool, true, List,
  get_or, length, Bool-cases,
}
use mosito.Heap.Sift.{IsOrder, Le_refl}
use mosito.LoserTree.{LoserTree, win, lose, leaf, win_tuple}
use mosito.LoserTree.Above.{Above, self, up, Above_le, Above_left, Above_right, below, root}

-- The players stand at leaves of their own.
pub record IsPlacing (n : ℕ) (place : ℕ → ℕ) : Type 0 where
  pub leaves : (i : ℕ) → 0 < i → i ≤ n → (n ≤ place i) × (place i < 2 * n)
  pub distinct : (i j : ℕ) → 0 < i → i ≤ n → 0 < j → j ≤ n → place i ≡ place j → i ≡ j

-- Below a leaf there is nothing else.
alone_below : (v x n : ℕ) → Above v x → n ≤ v → x < 2 * n → x ≡ v
alone_below v x n (self _ e) h k = e
alone_below v x n (up _ p a) h k = absurd (omega (arith, h, k, Above_le v (x / 2) a))

module _ {ℓ} {T : Type ℓ} (compare : T → T → Bool) (nothing : T) where
  abbrev pub Le : List T → ℕ → ℕ → Type 0
  Le l x y = compare (get_or l x nothing) (get_or l y nothing) ≡ true

  -- Of `x` and `y` one is `w`, the other is `loser`, and `w` is not behind it.
  pub record Decided (l : List T) (x y w loser : ℕ) : Type 0 where
    pub sides : ((w ≡ x) × (loser ≡ y)) ⊎ ((w ≡ y) × (loser ≡ x))
    pub order : Le l w loser

  pub Decided-swap : (l : List T) (x y w loser : ℕ) → Decided l x y w loser → Decided l y x w loser
  Decided-swap l x y w loser d = record {
    sides = elim d.sides [ inl s ↦ inr s | inr s ↦ inl s ];
    order = d.order;
  }

  pub win-lose :
      (l : List T) (x y : ℕ)
      → IsOrder compare
      → Decided l x y (win compare nothing l x y) (lose compare nothing l x y)
  unfolding win lose
  win-lose l x y order = elim (Bool-cases (compare (get_or l x nothing) (get_or l y nothing))) [
    | inl e ↦ rw e (record { sides = inl (refl, refl); order = e })
    | inr e ↦ rw e (record {
      sides = inr (refl, refl);
      order = order.total (get_or l x nothing) (get_or l y nothing) e;
    })
  ]

  Decided-frame :
      (l m : List T) (x y w loser loser' : ℕ)
      → get_or m x nothing ≡ get_or l x nothing
      → get_or m y nothing ≡ get_or l y nothing
      → loser' ≡ loser
      → Decided l x y w loser
      → Decided m x y w loser'
  Decided-frame l m x y w loser loser' p q r d = record {
    sides = subst (λ z. ((w ≡ x) × (z ≡ y)) ⊎ ((w ≡ y) × (z ≡ x))) (sym r) d.sides;
    order = elim d.sides [
      | inl s ↦ cc (d.order, s.0, s.1, p, q, r)
      | inr s ↦ cc (d.order, s.0, s.1, p, q, r)
    ];
  }

  -- The winner is not behind what either player is not behind.
  Decided-least :
      (l : List T) (x y w loser i : ℕ)
      → IsOrder compare
      → Decided l x y w loser
      → Le l x i ⊎ Le l y i
      → Le l w i
  Decided-least l x y w loser i order d h = elim h [
    | inl f ↦ elim d.sides [
      | inl s ↦ subst (λ z. Le l z i) (sym s.0) f
      | inr s ↦ order.trans _ _ _ (subst (λ z. Le l w z) s.1 d.order) f
    ]
    | inr f ↦ elim d.sides [
      | inl s ↦ order.trans _ _ _ (subst (λ z. Le l w z) s.1 d.order) f
      | inr s ↦ subst (λ z. Le l z i) (sym s.0) f
    ]
  ]

  -- Player `w` stands at node `place w`. The nodes from `n` on are leaves.
  module _ (n : ℕ) (place : ℕ → ℕ) where
    -- The matches at `v` and below are played, and `w` has won them.
    pub data Won (l : List T) (b : List ℕ) : ℕ → ℕ → Type 0 where
      alone : (v w : ℕ) → n ≤ v → place w ≡ v → 0 < w → w ≤ n → Won l b v w
      match :
          (v w x y : ℕ)
          → 0 < v
          → v < n
          → Won l b (2 * v) x
          → Won l b (2 * v + 1) y
          → Decided l x y w (get_or b v 0)
          → Won l b v w

    pub Won-Above : (l : List T) (b : List ℕ) (v w : ℕ) → Won l b v w → Above v (place w)
    Won-Above l b v w (alone _ _ h e p k) = Above.self (place w) e
    Won-Above l b v w (match _ _ x y p h left right d) = elim d.sides [
      | inl s ↦
          subst (λ z. Above v (place z)) (sym s.0)
            (Above_left v (place x) p (Won-Above l b (2 * v) x left))
      | inr s ↦
          subst (λ z. Above v (place z)) (sym s.0)
            (Above_right v (place y) (Won-Above l b (2 * v + 1) y right))
    ]

    -- Only the losers below `v` and the tuples of the players below `v` count.
    pub Won-player : (l : List T) (b : List ℕ) (v w : ℕ) → Won l b v w → (0 < w) × (w ≤ n)
    Won-player l b v w (alone _ _ h e p k) = (p, k)
    Won-player l b v w (match _ _ x y p h left right d) = elim d.sides [
      | inl s ↦ subst (λ z. (0 < z) × (z ≤ n)) (sym s.0) (Won-player l b (2 * v) x left)
      | inr s ↦ subst (λ z. (0 < z) × (z ≤ n)) (sym s.0) (Won-player l b (2 * v + 1) y right)
    ]

    pub Won-frame :
        (l m : List T) (b c : List ℕ) (v w : ℕ)
        → ((x : ℕ) → Above v x → get_or c x 0 ≡ get_or b x 0)
        → ((i : ℕ) → Above v (place i) → get_or m i nothing ≡ get_or l i nothing)
        → Won l b v w
        → Won m c v w
    Won-frame l m b c v w f g (alone _ _ h e p k) = Won.alone v w h e p k
    Won-frame l m b c v w f g (match _ _ x y p h left right d) =
        Won.match v w x y p h
          (Won-frame l m b c (2 * v) x (λ z a. f z (Above_left v z p a))
            (λ i a. g i (Above_left v (place i) p a)) left)
          (Won-frame l m b c (2 * v + 1) y (λ z a. f z (Above_right v z a))
            (λ i a. g i (Above_right v (place i) a)) right)
          (Decided-frame l m x y w (get_or b v 0) (get_or c v 0)
            (g x (Above_left v (place x) p (Won-Above l b (2 * v) x left)))
            (g y (Above_right v (place y) (Won-Above l b (2 * v + 1) y right)))
            (f v (Above.self v refl)) d)

    -- The winner is not behind any player below the node.
    pub Won-least :
        (l : List T) (b : List ℕ) (v w i : ℕ)
        → IsOrder compare
        → IsPlacing n place
        → Won l b v w
        → 0 < i
        → i ≤ n
        → Above v (place i)
        → Le l w i
    Won-least l b v w i order c (alone _ _ h e p m) q k a =
        subst (Le l w)
          (c.distinct w i p m q k (e ∙ sym (alone_below v (place i) n a h (c.leaves i q k).1)))
          (Le_refl compare nothing order (get_or l w nothing))
    Won-least l b v w i order c (match _ _ x y p h left right d) q k a =
        elim (below v (place i) a (λ f. omega (arith, f, h, (c.leaves i q k).0))) [
          | inl f ↦
              Decided-least l x y w (get_or b v 0) i order d
                (inl (Won-least l b (2 * v) x i order c left q k f))
          | inr f ↦
              Decided-least l x y w (get_or b v 0) i order d
                (inr (Won-least l b (2 * v + 1) y i order c right q k f))
        ]

  -- The tournament of a tree of at least two players is played.
  pub record IsTournament (t : LoserTree T) : Type 0 where
    pub many : 1 < t.n
    pub nodes : length t.b ≡ t.n
    pub slots : length t.l ≡ t.n + 1
    pub placing : IsPlacing t.n (leaf t.n t.low_ext t.offset)
    pub won : Won t.n (leaf t.n t.low_ext t.offset) t.l t.b 1 (get_or t.b 0 0)

  -- In a played tournament the tuple of the winner is not behind that of any player.
  pub winner_least :
      (t : LoserTree T) (i : ℕ)
      → IsOrder compare
      → IsTournament t
      → 0 < i
      → i ≤ t.n
      → compare (win_tuple compare nothing t) (get_or t.l i nothing) ≡ true
  unfolding win_tuple
  winner_least t i order c h k =
      Won-least t.n (leaf t.n t.low_ext t.offset) t.l t.b 1 (get_or t.b 0 0) i order c.placing c.won
        h k
        (root (leaf t.n t.low_ext t.offset i) (omega (arith, c.many, (c.placing.leaves i h k).0)))
