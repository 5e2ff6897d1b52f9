-- ===== src/Matching/Keeps.antt =====
-- src/analysis/m_km.cpp: what a call of `find` keeps.
use mosito.Base.{
  ℕ, zero, suc, ◌+◌, ◌≤◌, ◌<◌, ◌≡◌, ◌≢◌, refl, ap, ◌∙◌, subst, Bool, true, false, not, ◌&&◌, List,
  [], ◌∷◌, length, get_or, set, inl, inr, arith, length-set, get_or-set_self, get_or-set_ne,
}
use mosito.Heap.Sift.{eq_cases}
use mosito.Heap.Same.{bit, count, count-set}
use mosito.Matching.{Marks, seen, partner, mark, claim}
use mosito.Matching.Calls.{From, ends, skips, takes, moves, fails}

-- There is room for nodes 1 to `n`.
pub record IsSized (n : ℕ) (s : Marks) : Type 0 where
  pub vis : length s.vis ≡ n + 1
  pub link1 : length s.link1 ≡ n + 1

pub mark-IsSized : (n : ℕ) (s : Marks) (i : ℕ) → IsSized n s → IsSized n (mark s i)
mark-IsSized n s i z = record { vis = length-set s.vis i true ∙ z.vis; link1 = z.link1 }

claim-IsSized : (n : ℕ) (s : Marks) (i x : ℕ) → IsSized n s → IsSized n (claim s i x)
claim-IsSized n s i x z = record { vis = z.vis; link1 = length-set s.link1 i x ∙ z.link1 }

pub From-IsSized :
    {map : ℕ → ℕ → Bool} {n x i k : ℕ} {s t : Marks} {b : Bool}
    → From map n x i k s b t
    → IsSized n s
    → IsSized n t
From-IsSized ends z = z
From-IsSized (skips c f) z = From-IsSized f z
From-IsSized (takes {x = x} {i = i} {s = s} c p) z =
    claim-IsSized _ (mark s i) i x (mark-IsSized _ s i z)
From-IsSized (moves {x = x} {i = i} {s = s} {t = t} c p f) z =
    claim-IsSized _ t i x (From-IsSized f (mark-IsSized _ s i z))
From-IsSized (fails {i = i} {s = s} c p f g) z =
    From-IsSized g (From-IsSized f (mark-IsSized _ s i z))

-- A marked node stays marked.
pub mark-seen : (s : Marks) (i j : ℕ) → seen s j ≡ true → seen (mark s i) j ≡ true
mark-seen s i j e = set_true s.vis i j e
  where
    set_true :
        (xs : List Bool) (i j : ℕ)
        → get_or xs j false ≡ true
        → get_or (set xs i true) j false ≡ true
    set_true [] i j e = e
    set_true (x ∷ xs) zero zero e = refl
    set_true (x ∷ xs) zero (suc j) e = e
    set_true (x ∷ xs) (suc i) zero e = e
    set_true (x ∷ xs) (suc i) (suc j) e = set_true xs i j e

pub From-seen :
    {map : ℕ → ℕ → Bool} {n x i k : ℕ} {s t : Marks} {b : Bool}
    → From map n x i k s b t
    → (j : ℕ) → seen s j ≡ true
    → seen t j ≡ true
From-seen ends j e = e
From-seen (skips c f) j e = From-seen f j e
From-seen (takes {i = i} {s = s} c p) j e = mark-seen s i j e
From-seen (moves {i = i} {s = s} c p f) j e = From-seen f j (mark-seen s i j e)
From-seen (fails {i = i} {s = s} c p f g) j e = From-seen g j (From-seen f j (mark-seen s i j e))

-- A call that finds nothing changes no link.
pub From-link1 :
    {map : ℕ → ℕ → Bool} {n x i k : ℕ} {s t : Marks} {b : Bool}
    → From map n x i k s b t
    → b ≡ false
    → t.link1 ≡ s.link1
From-link1 ends e = refl
From-link1 (skips c f) e = From-link1 f e
From-link1 (takes c p) e = absurd (ground arith)
From-link1 (moves c p f) e = absurd (ground arith)
From-link1 (fails c p f g) e = From-link1 g e ∙ From-link1 f refl

pub not-seen :
    (map : ℕ → ℕ → Bool) (x i : ℕ) (s : Marks)
    → (map x i && not (seen s i)) ≡ true
    → (map x i ≡ true) × (seen s i ≡ false)
not-seen map x i s c = ground arith

pub seen_apart :
    (map : ℕ → ℕ → Bool) (x i j : ℕ) (s : Marks)
    → (map x i && not (seen s i)) ≡ true
    → seen s j ≡ true
    → i ≢ j
seen_apart map x i j s c e p = absurd (ground (arith, (not-seen map x i s c).1, e, ap (seen s) p))

-- The links of marked nodes stay.
pub From-partner :
    {map : ℕ → ℕ → Bool} {n x i k : ℕ} {s t : Marks} {b : Bool}
    → From map n x i k s b t
    → (j : ℕ) → seen s j ≡ true
    → partner t j ≡ partner s j
From-partner ends j e = refl
From-partner (skips c f) j e = From-partner f j e
From-partner {map = map} (takes {x = x} {i = i} {s = s} c p) j e =
    get_or-set_ne s.link1 i j x 0 (seen_apart map x i j s c e)
From-partner {map = map} (moves {x = x} {i = i} {s = s} {t = t} c p f) j e =
    get_or-set_ne t.link1 i j x 0 (seen_apart map x i j s c e)
    ∙ From-partner f j (mark-seen s i j e)
From-partner (fails {i = i} {s = s} c p f g) j e =
    From-partner g j (From-seen f j (mark-seen s i j e)) ∙ From-partner f j (mark-seen s i j e)

pub mark_self : (n i : ℕ) (s : Marks) → IsSized n s → i ≤ n → seen (mark s i) i ≡ true
mark_self n i s z l = get_or-set_self s.vis i true false (omega (arith, z.vis))

-- A call for `x` that finds a place links `x` once more, and every other node as often as before.
pub From-count :
    {map : ℕ → ℕ → Bool} {n x i k : ℕ} {s t : Marks} {b : Bool}
    → From map n x i k s b t
    → IsSized n s
    → i + k ≤ n + 1
    → b ≡ true
    → (p : ℕ → Bool) → p 0 ≡ false
    → count p t.link1 ≡ count p s.link1 + bit (p x)
From-count ends z l e p p0 = absurd (ground arith)
From-count (skips c f) z l e p p0 = From-count f z (omega arith) e p p0
From-count (takes {x = x} {i = i} {s = s} c q) z l e p p0 =
    omega
      (arith, count-set p s.link1 i x 0 (omega (arith, z.link1)), ap (λ y. bit (p y)) q ∙ ap bit p0)
From-count {n = n} (moves {x = x} {i = i} {s = s} {t = t} c q f) z l e p p0 =
    let zm = mark-IsSized _ s i z in
    omega (
      arith,
      From-count f zm (omega arith) refl p p0,
      count-set p t.link1 i x 0 (omega (arith, (From-IsSized f zm).link1)),
      ap (λ y. bit (p y)) (From-partner f i (mark_self n i s z (omega arith))),
    )
From-count (fails {x = x} {i = i} {s = s} {t = t} c q f g) z l e p p0 = omega (
  arith,
  ap (count p) (From-link1 f refl),
  From-count g (From-IsSized f (mark-IsSized _ s i z)) (omega arith) e p p0,
)

-- Every link is an edge.
abbrev pub AreEdges : (ℕ → ℕ → Bool) → Marks → Type 0
AreEdges map s = (j : ℕ) → partner s j ≢ 0 → map (partner s j) j ≡ true

claim-AreEdges :
    (map : ℕ → ℕ → Bool) (n : ℕ) (s : Marks) (i x : ℕ)
    → IsSized n s
    → i ≤ n
    → map x i ≡ true
    → AreEdges map s
    → AreEdges map (claim s i x)
claim-AreEdges map n s i x z l m a j q = elim (eq_cases i j) [
  | inl e ↦
      let v : get_or (set s.link1 i x) i 0 ≡ x =
        get_or-set_self s.link1 i x 0 (omega (arith, z.link1)) in
      subst (λ y. map (get_or (set s.link1 i x) y 0) y ≡ true) e (ap (λ y. map y i) v ∙ m)
  | inr d ↦
      let v : get_or (set s.link1 i x) j 0 ≡ get_or s.link1 j 0 = get_or-set_ne s.link1 i j x 0 d in
      ap (λ y. map y j) v ∙ a j (λ e. q (v ∙ e))
]

pub From-AreEdges :
    {map : ℕ → ℕ → Bool} {n x i k : ℕ} {s t : Marks} {b : Bool}
    → From map n x i k s b t
    → IsSized n s
    → i + k ≤ n + 1
    → AreEdges map s
    → AreEdges map t
From-AreEdges ends z l a = a
From-AreEdges (skips c f) z l a = From-AreEdges f z (omega arith) a
From-AreEdges {map = map} (takes {x = x} {i = i} {s = s} c q) z l a =
    claim-AreEdges map _ (mark s i) i x (mark-IsSized _ s i z) (omega arith)
      (not-seen map x i s c).0 a
From-AreEdges {map = map} (moves {x = x} {i = i} {s = s} {t = t} c q f) z l a =
    let zm = mark-IsSized _ s i z in
    claim-AreEdges map _ t i x (From-IsSized f zm) (omega arith) (not-seen map x i s c).0
      (From-AreEdges f zm (omega arith) a)
From-AreEdges (fails {i = i} {s = s} c q f g) z l a =
    let zm = mark-IsSized _ s i z in
    From-AreEdges g (From-IsSized f zm) (omega arith) (From-AreEdges f zm (omega arith) a)

-- Place 0 of the links stays.
pub From-unused :
    {map : ℕ → ℕ → Bool} {n x i k : ℕ} {s t : Marks} {b : Bool}
    → From map n x i k s b t
    → 0 < i
    → partner t 0 ≡ partner s 0
From-unused ends q = refl
From-unused (skips c f) q = From-unused f (omega arith)
From-unused (takes {x = x} {i = i} {s = s} c p) q = get_or-set_ne s.link1 i 0 x 0 (omega arith)
From-unused (moves {x = x} {i = i} {t = t} c p f) q =
    get_or-set_ne t.link1 i 0 x 0 (omega arith) ∙ From-unused f (omega arith)
From-unused (fails c p f g) q = From-unused g (omega arith) ∙ From-unused f (omega arith)
