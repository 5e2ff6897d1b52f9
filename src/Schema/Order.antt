-- ===== src/Schema/Order.antt =====
-- The comparator is a total preorder, as a heap needs.
use mosito.Base.{
  ℕ, ◌+◌, ◌≡◌, refl, ◌∙◌, sym, Bool, true, false, List, [], ◌∷◌, length, ltb, ◌==◌, if◌then◌else◌,
  arith, suc, ap,
}
use mosito.Schema.{DataType, Schema, SortOrderRef, compare}
use mosito.Schema.Keys.{lex_leb, keys, compare-lex}
use mosito.Heap.Sift.{IsOrder}

lex_total : (xs ys : List ℕ) → length xs ≡ length ys → lex_leb xs ys ≡ false → lex_leb ys xs ≡ true
lex_total [] ys h e = absurd (ground (arith, e))
lex_total (x ∷ xs) [] h e = absurd (omega arith)
lex_total (x ∷ xs) (y ∷ ys) h e =
    step x y (lex_leb xs ys) (lex_leb ys xs) (lex_total xs ys (omega arith)) e
  where
    step :
        (x y : ℕ) (a b : Bool)
        → (a ≡ false → b ≡ true)
        → (if x == y then a else ltb x y) ≡ false
        → (if y == x then b else ltb y x) ≡ true
    step x y a b f e = ground (arith, f, e)

lex_trans : (xs ys zs : List ℕ) → lex_leb xs ys ≡ true → lex_leb ys zs ≡ true → lex_leb xs zs ≡ true
lex_trans [] ys zs e f = refl
lex_trans (x ∷ xs) [] zs e f = absurd (ground (arith, e))
lex_trans (x ∷ xs) (y ∷ ys) [] e f = absurd (ground (arith, f))
lex_trans (x ∷ xs) (y ∷ ys) (z ∷ zs) e f =
    step x y z (lex_leb xs ys) (lex_leb ys zs) (lex_leb xs zs) (lex_trans xs ys zs) e f
  where
    step :
        (x y z : ℕ) (a b c : Bool)
        → (a ≡ true → b ≡ true → c ≡ true)
        → (if x == y then a else ltb x y) ≡ true
        → (if y == z then b else ltb y z) ≡ true
        → (if x == z then c else ltb x z) ≡ true
    step x y z a b c g e f = ground (arith, g, e, f)

module _ (outside : DataType) (wild : ℕ) where
  length-keys :
      (schema : Schema) (i : ℕ) (vs : List SortOrderRef) (l r : List ℕ)
      → length (keys outside wild schema i vs l) ≡ length (keys outside wild schema i vs r)
  length-keys schema i [] l r = refl
  length-keys schema i (v ∷ vs) l r = ap suc (length-keys schema (i + 1) vs l r)

  -- `Comparator::compare` is total and transitive.
  pub compare-IsOrder :
      (schema : Schema) (vs : List SortOrderRef) (junk : ℕ)
      → IsOrder (compare outside wild junk schema vs)
  compare-IsOrder schema vs junk = record {
    total = λ l r e.
        compare-lex outside wild schema vs junk r l
        ∙ lex_total _ _ (length-keys schema 0 vs l r)
            (sym (compare-lex outside wild schema vs junk l r) ∙ e);
    trans = λ x y z e f.
        compare-lex outside wild schema vs junk x z
        ∙ lex_trans _ (keys outside wild schema 0 vs y) _
            (sym (compare-lex outside wild schema vs junk x y) ∙ e)
            (sym (compare-lex outside wild schema vs junk y z) ∙ f);
  }
