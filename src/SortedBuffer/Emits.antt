-- ===== src/SortedBuffer/Emits.antt =====
-- Merging without the tournament: one after the other a least one of the elements that are left is taken,
-- from the front of its list.
use mosito.Base.{
  ℕ, zero, suc, ◌+◌, ◌<◌, ◌≡◌, ap, sym, subst, arith, Bool, true, List, [], ◌∷◌, ◌++◌, concat,
  length, get_or, set, All,
}
use mosito.Heap.Same.{bit, count, count-append, fails, fails-All, All-fails}
use mosito.Runs.Ascending.{IsAscending}

module _ {ℓ} {T : Type ℓ} (compare : T → T → Bool) where
  -- From `rests` the elements `out` are taken, and `left` is left.
  abbrev pub Emits : List T → List (List T) → List (List T) → Type ℓ
  Emits [] rests left = rests ≡ left
  Emits (t ∷ out) rests left =
      (i : ℕ) × (tail : List T) × (i < length rests)
      × (get_or rests i [] ≡ t ∷ tail)
      × All (λ x. compare t x ≡ true) (concat rests)
      × Emits out (set rests i tail) left

  pub Emits-append :
      (xs ys : List T) (a b c : List (List T)) → Emits xs a b → Emits ys b c → Emits (xs ++ ys) a c
  Emits-append [] ys a b c e f = subst (λ r. Emits ys r c) (sym e) f
  Emits-append (x ∷ xs) ys a b c (i, tail, h, e, l, r) f =
      (i, tail, h, e, l, Emits-append xs ys (set a i tail) b c r f)

  pub count-taken :
      (p : T → Bool) (rests : List (List T)) (i : ℕ) (t : T) (tail : List T)
      → i < length rests
      → get_or rests i [] ≡ t ∷ tail
      → count p (concat rests) ≡ bit (p t) + count p (concat (set rests i tail))
  count-taken p [] i t tail h e = absurd (omega arith)
  count-taken p (r ∷ rests) zero t tail h e =
      omega
        (arith, ap (count p) e, count-append p r (concat rests), count-append p tail (concat rests))
  count-taken p (r ∷ rests) (suc i) t tail h e = omega (
    arith,
    count-append p r (concat rests),
    count-append p r (concat (set rests i tail)),
    count-taken p rests i t tail (omega arith) e,
  )

  pub Emits-count :
      (p : T → Bool) (out : List T) (rests left : List (List T))
      → Emits out rests left
      → count p (concat rests) ≡ count p out + count p (concat left)
  Emits-count p [] rests left e = omega (arith, ap (λ r. count p (concat r)) e)
  Emits-count p (t ∷ out) rests left (i, tail, h, e, l, r) =
      omega (arith, count-taken p rests i t tail h e, Emits-count p out (set rests i tail) left r)

  pub Emits-IsAscending :
      (out : List T) (rests left : List (List T)) → Emits out rests left → IsAscending compare out
  Emits-IsAscending [] rests left e = tt
  Emits-IsAscending (t ∷ out) rests left (i, tail, h, e, l, r) =
      let none : count (fails (compare t)) (concat rests) ≡ 0 =
        fails-All (compare t) (concat rests) l in
      (
        All-fails (compare t) out (
            omega (
              arith,
              none,
              count-taken (fails (compare t)) rests i t tail h e,
              Emits-count (fails (compare t)) out (set rests i tail) left r,
            )),
        Emits-IsAscending out (set rests i tail) left r,
      )
