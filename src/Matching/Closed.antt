-- ===== src/Matching/Closed.antt =====
-- src/analysis/m_km.cpp: where `find` finds nothing. A set of right nodes is closed when all are linked
-- and every edge of their partners ends in the set: no call leads out of it.
use mosito.Base.{
  ℕ, ◌+◌, ◌≤◌, ◌<◌, ◌≡◌, ◌≢◌, refl, ap, sym, ◌∙◌, subst, Bool, true, false, List, get_or, ◌⊎◌, inl,
  inr, arith, get_or-set_ne,
}
use mosito.Heap.Sift.{eq_cases}
use mosito.Matching.{Marks, seen, partner, mark}
use mosito.Matching.Calls.{From, ends, skips, takes, moves, fails}
use mosito.Matching.Keeps.{
  IsSized, mark-IsSized, From-IsSized, mark_self, From-seen, From-link1, not-seen,
}

mark_ne : (s : Marks) (i j : ℕ) → i ≢ j → seen (mark s i) j ≡ seen s j
mark_ne s i j d = get_or-set_ne s.vis i j true false d

module _ (map : ℕ → ℕ → Bool) (n : ℕ) where
  -- Every edge of `x`, from `i` on, ends in the set.
  abbrev pub Edges : ℕ → (ℕ → Bool) → ℕ → Type 0
  Edges i set x = (y : ℕ) → i ≤ y → y ≤ n → map x y ≡ true → set y ≡ true

  abbrev pub Held : (ℕ → Bool) → List ℕ → ℕ → Type 0
  Held set link1 j = (get_or link1 j 0 ≢ 0) × Edges 1 set (get_or link1 j 0)

  abbrev pub IsClosed : (ℕ → Bool) → List ℕ → Type 0
  IsClosed set link1 = (j : ℕ) → set j ≡ true → Held set link1 j

  pub Held-grows :
      (set set' : ℕ → Bool) (xs ys : List ℕ) (j : ℕ)
      → ys ≡ xs
      → ((y : ℕ) → set y ≡ true → set' y ≡ true)
      → Held set xs j
      → Held set' ys j
  Held-grows set set' xs ys j e g h =
      subst (λ zs. Held set' zs j) (sym e) (h.0, (λ y l m c. g y (h.1 y l m c)))

  -- After a call that finds nothing, the edges of its node end in marked nodes, and so do those of the
  -- partners of the nodes that it marked, which are all linked.
  pub From-Edges :
      {x i k : ℕ} {s t : Marks} {b : Bool}
      → From map n x i k s b t
      → IsSized n s
      → i + k ≡ n + 1
      → b ≡ false
      → Edges i (seen t) x
        × ((j : ℕ) → seen t j ≡ true → (seen s j ≡ true) ⊎ Held (seen t) t.link1 j)
  From-Edges ends z l e = ((λ y p q c. absurd (omega arith)), (λ j c. inl c))
  From-Edges (skips {x = x} {i = i} {s = s} {t = t} c f) z l e =
      let r = From-Edges f z (omega arith) e in
      (
        (λ y p q m. elim (eq_cases i y) [
          | inl d ↦
              subst (λ w. seen t w ≡ true) d
                (From-seen f i (ground (arith, c, subst (λ w. map x w ≡ true) (sym d) m)))
          | inr d ↦ r.0 y (omega arith) q m
        ]),
        r.1,
      )
  From-Edges (takes c p) z l e = absurd (ground arith)
  From-Edges (moves c p f) z l e = absurd (ground arith)
  From-Edges (fails {x = x} {i = i} {s = s} {t = t} {u = u} c p f g) z l e =
      let zm = mark-IsSized n s i z in
      let r = From-Edges f zm (omega arith) refl in
      let r' = From-Edges g (From-IsSized f zm) (omega arith) e in
      let here : seen t i ≡ true = From-seen f i (mark_self n i s z (omega arith)) in
      (
        (λ y q m h. elim (eq_cases i y) [
          | inl d ↦ subst (λ w. seen u w ≡ true) d (From-seen g i here)
          | inr d ↦ r'.0 y (omega arith) m h
        ]),
        (λ j h. elim (r'.1 j h) [
          | inr held ↦ inr held
          | inl h' ↦ elim (r.1 j h') [
            | inr held ↦
                inr (
                  Held-grows (seen t) (seen u) t.link1 u.link1 j (From-link1 g e) (From-seen g)
                    held)
            | inl h'' ↦ elim (eq_cases i j) [
              | inr d ↦ inl (sym (mark_ne s i j d) ∙ h'')
              | inl d ↦ inr (
                  subst (Held (seen u) u.link1) d (
                    Held-grows (seen t) (seen u) s.link1 u.link1 i
                      (From-link1 g e ∙ From-link1 f refl) (From-seen g) (p, r.0)))
            ]
          ]
        ]),
      )

  -- A node whose edges all end in a closed set finds nothing.
  trapped :
      (set : ℕ → Bool) {x i k : ℕ} {s t : Marks} {b : Bool}
      → From map n x i k s b t
      → 0 < i
      → i + k ≤ n + 1
      → Edges 1 set x
      → IsClosed set s.link1
      → b ≡ false
  trapped set ends q l h c = refl
  trapped set (skips d f) q l h c = trapped set f (omega arith) (omega arith) h c
  trapped set (takes {x = x} {i = i} {s = s} d p) q l h c =
      absurd ((c i (h i (omega arith) (omega arith) (not-seen map x i s d).0)).0 p)
  trapped set (moves {x = x} {i = i} {s = s} d p f) q l h c =
      trapped set f (omega arith) (omega arith)
        (c i (h i (omega arith) (omega arith) (not-seen map x i s d).0)).1 c
  trapped set (fails d p f g) q l h c =
      trapped set g (omega arith) (omega arith) h (subst (IsClosed set) (sym (From-link1 f refl)) c)

  -- The links of a closed set stay.
  pub From-stays :
      (set : ℕ → Bool) {x i k : ℕ} {s t : Marks} {b : Bool}
      → From map n x i k s b t
      → 0 < i
      → i + k ≤ n + 1
      → IsClosed set s.link1
      → (j : ℕ) → set j ≡ true
      → partner t j ≡ partner s j
  From-stays set ends q l c j e = refl
  From-stays set (skips d f) q l c j e = From-stays set f (omega arith) (omega arith) c j e
  From-stays set (takes {x = x} {i = i} {s = s} d p) q l c j e =
      get_or-set_ne s.link1 i j x 0 (λ w. (c i (ap set w ∙ e)).0 p)
  From-stays set (moves {x = x} {i = i} {s = s} {t = t} d p f) q l c j e =
      get_or-set_ne t.link1 i j x 0 (λ w.
        absurd (ground (arith, trapped set f (omega arith) (omega arith) (c i (ap set w ∙ e)).1 c)))
      ∙ From-stays set f (omega arith) (omega arith) c j e
  From-stays set (fails {s = s} {t = t} d p f g) q l c j e =
      From-stays set g (omega arith) (omega arith)
        (subst (IsClosed set) (sym (From-link1 f refl)) c) j e
      ∙ ap (λ xs. get_or xs j 0) (From-link1 f refl)
