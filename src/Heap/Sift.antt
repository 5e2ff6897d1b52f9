-- ===== src/Heap/Sift.antt =====
-- Sifting down restores the heap.
use mosito.Base.{
  ℕ, ◌+◌, ◌-◌, ◌*◌, ◌/◌, ◌≤◌, ◌<◌, ◌≡◌, ◌≢◌, refl, ap, sym, ◌∙◌, subst, Bool, true, false, List,
  get_or, set, length, ltb, ◌⊎◌, inl, inr, arith, length-set, get_or-set_self, get_or-set_ne,
  Bool-cases, ltb→lt,
}
use mosito.Heap.{swap, smaller_child}

abbrev pub parent : ℕ → ℕ
parent c = (c - 1) / 2

-- What a heap needs of its comparison.
pub record IsOrder {ℓ} {T : Type ℓ} (compare : T → T → Bool) : Type ℓ where
  pub total : (x y : T) → compare x y ≡ false → compare y x ≡ true
  pub trans : (x y z : T) → compare x y ≡ true → compare y z ≡ true → compare x z ≡ true

pub eq_cases : (a b : ℕ) → (a ≡ b) ⊎ (a ≢ b)
eq_cases a b = ground arith

module _ {ℓ} {T : Type ℓ} (compare : T → T → Bool) (nothing : T) (order : IsOrder compare) where
  abbrev pub at : List T → ℕ → T
  at array i = get_or array i nothing

  abbrev pub Le : T → T → Type 0
  Le x y = compare x y ≡ true

  -- The nodes from `k` on are in order with their children, but for node `i`; and the parent of `i`
  -- is in order with the children of `i`.
  pub record HeapBut (k i len : ℕ) (array : List T) : Type 0 where
    pub ordered :
        (c : ℕ)
        → 0 < c
        → c < len
        → k ≤ parent c
        → parent c ≢ i
        → Le (at array (parent c)) (at array c)
    pub bridge :
        (c : ℕ)
        → 0 < c
        → c < len
        → parent c ≡ i
        → 0 < i
        → k ≤ parent i
        → Le (at array (parent i)) (at array c)

  abbrev pub HeapFrom : ℕ → ℕ → List T → Type 0
  HeapFrom k len array =
      (c : ℕ) → 0 < c → c < len → k ≤ parent c → Le (at array (parent c)) (at array c)

  pub length-swap :
      (array : List T) (i j : ℕ) → length (swap compare nothing array i j) ≡ length array
  unfolding swap
  length-swap array i j =
      length-set (set array i (at array j)) j (at array i) ∙ length-set array i (at array j)

  swap_left :
      (array : List T) (i j : ℕ)
      → i < length array
      → i ≢ j
      → at (swap compare nothing array i j) i ≡ at array j
  unfolding swap
  swap_left array i j h n =
      get_or-set_ne _ j i _ nothing (λ e. n (sym e)) ∙ get_or-set_self array i _ nothing h

  swap_right :
      (array : List T) (i j : ℕ)
      → j < length array
      → at (swap compare nothing array i j) j ≡ at array i
  unfolding swap
  swap_right array i j h =
      get_or-set_self _ j _ nothing (omega (arith, length-set array i (at array j)))

  swap_other :
      (array : List T) (i j c : ℕ)
      → c ≢ i
      → c ≢ j
      → at (swap compare nothing array i j) c ≡ at array c
  unfolding swap
  swap_other array i j c h k =
      get_or-set_ne _ j c _ nothing (λ e. k (sym e))
      ∙ get_or-set_ne array i c _ nothing (λ e. h (sym e))

  pub Le_refl : (x : T) → Le x x
  Le_refl x = elim (Bool-cases (compare x x)) [ inl e ↦ e | inr e ↦ order.total x x e ]

  -- A child of `i` that is in order with every child of `i`.
  pub record Smallest (array : List T) (i len m : ℕ) : Type 0 where
    pub inside : m < len
    pub child : parent m ≡ i
    pub below : i < m
    pub least : (c : ℕ) → 0 < c → c < len → parent c ≡ i → Le (at array m) (at array c)

  smaller_child_right :
      (array : List T) (i len : ℕ)
      → ltb (2 * i + 1 + 1) len ≡ true
      → compare (at array (2 * i + 1)) (at array (2 * i + 1 + 1)) ≡ false
      → smaller_child compare nothing array i len ≡ 2 * i + 1 + 1
  unfolding smaller_child
  smaller_child_right array i len e f = rw (e, f) refl

  smaller_child_only :
      (array : List T) (i len : ℕ)
      → ltb (2 * i + 1 + 1) len ≡ false
      → smaller_child compare nothing array i len ≡ 2 * i + 1
  unfolding smaller_child
  smaller_child_only array i len e = rw e refl

  smaller_child_left :
      (array : List T) (i len : ℕ)
      → ltb (2 * i + 1 + 1) len ≡ true
      → compare (at array (2 * i + 1)) (at array (2 * i + 1 + 1)) ≡ true
      → smaller_child compare nothing array i len ≡ 2 * i + 1
  unfolding smaller_child
  smaller_child_left array i len e f = rw (e, f) refl

  -- Both children are in order with `m`, as far as they are there.
  both_children :
      (array : List T) (i len m : ℕ)
      → Le (at array m) (at array (2 * i + 1))
      → (2 * i + 1 + 1 < len → Le (at array m) (at array (2 * i + 1 + 1)))
      → (c : ℕ) → 0 < c
      → c < len
      → parent c ≡ i
      → Le (at array m) (at array c)
  both_children array i len m l r c p q e = elim (eq_cases c (2 * i + 1)) [
    | inl f ↦ subst (λ c. Le (at array m) (at array c)) (sym f) l
    | inr n ↦
        let f : 2 * i + 1 + 1 ≡ c = omega arith in
        subst (λ c. Le (at array m) (at array c)) f (r (omega arith))
  ]

  pub smaller_child-Smallest :
      (array : List T) (i len : ℕ)
      → 2 * i + 1 < len
      → Smallest array i len (smaller_child compare nothing array i len)
  smaller_child-Smallest array i len h = elim (Bool-cases (ltb (2 * i + 1 + 1) len)) [
    | inr e ↦ subst (Smallest array i len) (sym (smaller_child_only array i len e)) (record {
      inside = h;
      child = omega arith;
      below = omega arith;
      least =
          both_children array i len (2 * i + 1) (Le_refl _) (λ l. absurd (ground (arith, e, l)));
    })
    | inl e ↦ elim (Bool-cases (compare (at array (2 * i + 1)) (at array (2 * i + 1 + 1)))) [
      | inl f ↦ subst (Smallest array i len) (sym (smaller_child_left array i len e f)) (record {
        inside = h;
        child = omega arith;
        below = omega arith;
        least = both_children array i len (2 * i + 1) (Le_refl _) (λ l. f);
      })
      | inr f ↦ subst (Smallest array i len) (sym (smaller_child_right array i len e f)) (record {
        inside = ltb→lt _ _ e;
        child = omega arith;
        below = omega arith;
        least = both_children array i len (2 * i + 1 + 1) (order.total _ _ f) (λ l. Le_refl _);
      })
    ]
  ]

  -- A node that is in order with its smallest child needs no more.
  pub settled :
      (k i len m : ℕ) (array : List T)
      → HeapBut k i len array
      → Smallest array i len m
      → Le (at array i) (at array m)
      → HeapFrom k len array
  settled k i len m array h s l c p q r = elim (eq_cases (parent c) i) [
    | inl e ↦
        subst (λ j. Le (at array j) (at array c)) (sym e) (order.trans _ _ _ l (s.least c p q e))
    | inr n ↦ h.ordered c p q r n
  ]

  pub leaf :
      (k i len : ℕ) (array : List T)
      → HeapBut k i len array
      → len ≤ 2 * i + 1
      → HeapFrom k len array
  leaf k i len array h l c p q r = h.ordered c p q r (λ e. absurd (omega arith))

  -- One round: the node changes places with its smallest child.
  pub swap-HeapBut :
      (k i len m : ℕ) (array : List T)
      → k ≤ i
      → len ≤ length array
      → HeapBut k i len array
      → Smallest array i len m
      → compare (at array i) (at array m) ≡ false
      → HeapBut k m len (swap compare nothing array i m)
  swap-HeapBut k i len m array ki n h s f = record {
    ordered = ordered;
    bridge = λ c p q e o r.
        le_by (ap (at arr') s.child ∙ swap_at_i)
          (same c (omega (arith, s.below, s.child)) (omega (arith, s.below, e)))
          (subst (λ j. Le (at array j) (at array c)) e
            (h.ordered c p q (omega (arith, e, s.below))
              (λ x. absurd (omega (arith, e, s.below)))));
  }
    where
      arr' : List T
      arr' = swap compare nothing array i m

      swap_at_i : at arr' i ≡ at array m
      swap_at_i =
          swap_left array i m (omega (arith, s.inside, s.below))
            (λ e. absurd (omega (arith, e, s.below)))

      swap_at_m : at arr' m ≡ at array i
      swap_at_m = swap_right array i m (omega (arith, s.inside))

      same : (c : ℕ) → c ≢ i → c ≢ m → at arr' c ≡ at array c
      same c = swap_other array i m c

      le_by : {x y x' y' : T} → x' ≡ x → y' ≡ y → Le x y → Le x' y'
      le_by e g l = rw (e, g) l

      ordered :
          (c : ℕ)
          → 0 < c
          → c < len
          → k ≤ parent c
          → parent c ≢ m
          → Le (at arr' (parent c)) (at arr' c)
      ordered c p q r ne = elim (eq_cases (parent c) i) [
        | inl e ↦ elim (eq_cases c m) [
          | inl g ↦
              le_by (ap (at arr') e ∙ swap_at_i) (ap (at arr') g ∙ swap_at_m) (order.total _ _ f)
          | inr g ↦
              le_by (ap (at arr') e ∙ swap_at_i) (same c (λ x. absurd (omega arith)) g)
                (s.least c p q e)
        ]
        | inr e ↦ elim (eq_cases c i) [
          | inl g ↦ le_by (same (parent c) e ne) (ap (at arr') g ∙ swap_at_i) (
              subst (λ j. Le (at array (parent j)) (at array m)) (sym g)
                (h.bridge m (omega (arith, s.below)) s.inside s.child (omega (arith, g, p))
                  (omega (arith, g, r))))
          | inr g ↦
              le_by (same (parent c) e ne) (same c g (λ x. absurd (e (ap parent x ∙ s.child))))
                (h.ordered c p q r e)
        ]
      ]
