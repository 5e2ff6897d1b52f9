-- ===== src/Heap/Again.antt =====
-- The loops of `heap_again` and `heap_sort`: a heap with the least tuple on top comes out, of the
-- tuples that went in.
use mosito.Base.{
  ℕ, zero, suc, ◌+◌, ◌-◌, ◌*◌, ◌/◌, ◌≤◌, ◌<◌, ◌≡◌, refl, ◌∙◌, Bool, true, false, List, get_or,
  length, ltb, inl, inr, arith, Bool-cases, ltb→lt, ltb→le, ◌==◌, if◌then◌else◌,
}
use mosito.Heap.{swap, smaller_child, heap_again_from, heap_again, heap_sort_from, heap_sort}
use mosito.Heap.Sift.{IsOrder, parent}
use mosito.Heap.Same.{count, heap_sort-Same}
use mosito.Heap.Sift

module _ {ℓ} {T : Type ℓ} (compare : T → T → Bool) (nothing : T) (order : IsOrder compare) where
  abbrev at : List T → ℕ → T
  at array i = get_or array i nothing

  abbrev HeapBut : ℕ → ℕ → ℕ → List T → Type 0
  HeapBut = Sift.HeapBut compare nothing order

  abbrev HeapFrom : ℕ → ℕ → List T → Type 0
  HeapFrom = Sift.HeapFrom compare nothing order

  again_out : (i len : ℕ) (array : List T) → heap_again_from compare nothing 0 array i len ≡ array
  unfolding heap_again_from
  again_out i len array = refl

  again_done :
      (fuel i len : ℕ) (array : List T)
      → ltb (2 * i + 1) len ≡ false
      → heap_again_from compare nothing (suc fuel) array i len ≡ array
  unfolding heap_again_from
  again_done fuel i len array e = rw (e, heap_again_from) refl

  again_settled :
      (fuel i len : ℕ) (array : List T)
      → ltb (2 * i + 1) len ≡ true
      → compare (at array i) (at array (smaller_child compare nothing array i len)) ≡ true
      → heap_again_from compare nothing (suc fuel) array i len ≡ array
  unfolding heap_again_from
  again_settled fuel i len array e f = rw (e, f, heap_again_from) refl

  again_swap :
      (fuel i len : ℕ) (array : List T)
      → ltb (2 * i + 1) len ≡ true
      → compare (at array i) (at array (smaller_child compare nothing array i len)) ≡ false
      → heap_again_from compare nothing (suc fuel) array i len
        ≡ heap_again_from compare nothing fuel
            (swap compare nothing array i (smaller_child compare nothing array i len))
            (smaller_child compare nothing array i len)
            len
  unfolding heap_again_from
  again_swap fuel i len array e f = rw (e, f, heap_again_from) refl

  heap_again_from_lem :
      (fuel k i len : ℕ) (array : List T)
      → k ≤ i
      → len ≤ length array
      → len ≤ fuel + i
      → HeapBut k i len array
      → HeapFrom k len (heap_again_from compare nothing fuel array i len)
        × (length (heap_again_from compare nothing fuel array i len) ≡ length array)
  heap_again_from_lem zero k i len array ki n f h =
      rw (again_out i len array)
        (Sift.leaf compare nothing order k i len array h (omega arith), refl)
  heap_again_from_lem (suc fuel) k i len array ki n f h = elim (Bool-cases (ltb (2 * i + 1) len)) [
    | inr e ↦
        rw (again_done fuel i len array e)
          (Sift.leaf compare nothing order k i len array h (ltb→le _ _ e), refl)
    | inl e ↦
        let s = Sift.smaller_child-Smallest compare nothing order array i len (ltb→lt _ _ e) in
        elim (Bool-cases
          (compare (at array i) (at array (smaller_child compare nothing array i len)))) [
            | inl g ↦
                rw (again_settled fuel i len array e g)
                  (Sift.settled compare nothing order k i len _ array h s g, refl)
            | inr g ↦
                let r =
                  heap_again_from_lem fuel k (smaller_child compare nothing array i len) len
                    (swap compare nothing array i (smaller_child compare nothing array i len))
                    (omega (arith, s.below))
                    (omega (
                      arith,
                      Sift.length-swap compare nothing order array i
                          (smaller_child compare nothing array i len),
                    ))
                    (omega (arith, s.below))
                    (Sift.swap-HeapBut compare nothing order k i len _ array ki n h s g) in
                rw (again_swap fuel i len array e g) (
                  r.0,
                  r.1
                      ∙ Sift.length-swap compare nothing order array i
                          (smaller_child compare nothing array i len),
                )
          ]
  ]

  HeapFrom-HeapBut :
      (i len : ℕ) (array : List T) → HeapFrom (suc i) len array → HeapBut i i len array
  HeapFrom-HeapBut i len array h = record {
    ordered = λ c p q r n. h c p q (omega (arith, r, n));
    bridge = λ c p q e o r. absurd (omega (arith, o, r));
  }

  -- Sifting node `i` down makes a heap from `i` on of a heap from `i + 1` on.
  pub heap_again-HeapFrom :
      (i len : ℕ) (array : List T)
      → len ≤ length array
      → HeapFrom (suc i) len array
      → HeapFrom i len (heap_again compare nothing array i len)
        × (length (heap_again compare nothing array i len) ≡ length array)
  unfolding heap_again
  heap_again-HeapFrom i len array n h =
      heap_again_from_lem len i i len array (omega arith) n (omega arith)
        (HeapFrom-HeapBut i len array h)

  heap_sort_from_lem :
      (n len : ℕ) (array : List T)
      → len ≤ length array
      → HeapFrom n len array
      → HeapFrom 0 len (heap_sort_from compare nothing n array len)
  unfolding heap_sort_from
  heap_sort_from_lem zero len array l h = h
  heap_sort_from_lem (suc n) len array l h =
      let r = heap_again-HeapFrom n len array l h in
      heap_sort_from_lem n len (heap_again compare nothing array n len) (omega (arith, r.1)) r.0

  heap_sort_start :
      (len c : ℕ) → 0 < c → c < len → (if len == 0 then 0 else (len - 2) / 2 + 1) ≤ parent c → ⊥
  heap_sort_start len c p q h = ground arith

  pub heap_sort-HeapFrom :
      (len : ℕ) (array : List T)
      → len ≤ length array
      → HeapFrom 0 len (heap_sort compare nothing array len)
  unfolding heap_sort
  heap_sort-HeapFrom len array l =
      heap_sort_from_lem _ len array l (λ c p q r. absurd (heap_sort_start len c p q r))

  -- The top of a heap is in order with every tuple.
  pub top_least :
      (fuel len : ℕ) (array : List T)
      → HeapFrom 0 len array
      → (c : ℕ) → c < fuel
      → c < len
      → compare (at array 0) (at array c) ≡ true
  top_least zero len array h c f l = absurd (omega arith)
  top_least (suc fuel) len array h zero f l = Sift.Le_refl compare nothing order (at array 0)
  top_least (suc fuel) len array h (suc c) f l =
      order.trans _ _ _ (top_least fuel len array h (parent (suc c)) (omega arith) (omega arith))
        (h (suc c) (omega arith) l (omega arith))

  -- `heap_sort` over a total preorder leaves, of the first `len` tuples of the array, a heap: every
  -- node is in order with its children, and the first with all. It only moves tuples: of those with
  -- any property the array has as many as before.
  pub heap_sort-heap :
      (len : ℕ) (array : List T)
      → len ≤ length array
      → HeapFrom 0 len (heap_sort compare nothing array len)
        × ((c : ℕ)
            → c < len
            → compare
                (at (heap_sort compare nothing array len) 0)
                (at (heap_sort compare nothing array len) c)
              ≡ true)
        × ((p : T → Bool) → count p (heap_sort compare nothing array len) ≡ count p array)
  heap_sort-heap len array l =
      let h = heap_sort-HeapFrom len array l in
      (
        h,
        (λ c k. top_least len len (heap_sort compare nothing array len) h c k k),
        (λ p. (heap_sort-Same compare nothing p len array l).0),
      )
