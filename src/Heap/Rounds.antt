-- ===== src/Heap/Rounds.antt =====
-- A proof rule: what every swap inside the first `len` places keeps, `heap_again` and `heap_sort` keep.
use mosito.Base.{
  ℕ, zero, suc, ◌+◌, ◌*◌, ◌≤◌, ◌<◌, ◌≡◌, refl, ◌∙◌, sym, subst, Bool, true, false, not, ◌&&◌, List,
  get_or, set, length, ltb, inl, inr, arith, Bool-cases, length-set,
}
use mosito.Heap.{swap, smaller_child, heap_again_from, heap_again, heap_sort_from, heap_sort}

module _ {ℓ} {T : Type ℓ} (compare : T → T → Bool) (nothing : T) where
  pub length-swap_eq :
      (array : List T) (i j : ℕ) → length (swap compare nothing array i j) ≡ length array
  unfolding swap
  length-swap_eq array i j =
      length-set (set array i (get_or array j nothing)) j (get_or array i nothing)
      ∙ length-set array i (get_or array j nothing)

  smaller_child_inside :
      (array : List T) (i len : ℕ)
      → 2 * i + 1 < len
      → smaller_child compare nothing array i len < len
  unfolding smaller_child
  smaller_child_inside array i len h = ground (arith, h)

  -- The test of a round.
  abbrev goes : List T → ℕ → ℕ → Bool
  goes array i len =
      ltb (2 * i + 1) len
      && not (
          compare (get_or array i nothing)
            (get_or array (smaller_child compare nothing array i len) nothing))

  goes_inside : (array : List T) (i len : ℕ) → goes array i len ≡ true → 2 * i + 1 < len
  goes_inside array i len e = ground (arith, e)

  again_stops :
      (fuel i len : ℕ) (array : List T)
      → goes array i len ≡ false
      → heap_again_from compare nothing (suc fuel) array i len ≡ array
  unfolding heap_again_from
  again_stops fuel i len array e = rw (e, heap_again_from) refl

  again_goes :
      (fuel i len : ℕ) (array : List T)
      → goes array i len ≡ true
      → heap_again_from compare nothing (suc fuel) array i len
        ≡ heap_again_from compare nothing fuel
            (swap compare nothing array i (smaller_child compare nothing array i len))
            (smaller_child compare nothing array i len)
            len
  unfolding heap_again_from
  again_goes fuel i len array e = rw (e, heap_again_from) refl

  module _ {κ} (P : List T → Type κ) (len : ℕ)
      (keeps : (a : List T) (i j : ℕ)
        → len ≤ length a
        → i < len
        → j < len
        → P a
        → P (swap compare nothing a i j)) where
    -- The property, together with the room for the window.
    abbrev Roomy : List T → Type κ
    Roomy a = (len ≤ length a) × P a

    again_ind :
        (fuel i : ℕ) (array : List T)
        → Roomy array
        → Roomy (heap_again_from compare nothing fuel array i len)
    unfolding heap_again_from
    again_ind zero i array h = h
    again_ind (suc fuel) i array h = elim (Bool-cases (goes array i len)) [
      | inr e ↦ subst Roomy (sym (again_stops fuel i len array e)) h
      | inl e ↦
          let l = goes_inside array i len e in
          let m = smaller_child compare nothing array i len in
          subst Roomy (sym (again_goes fuel i len array e)) (
            again_ind fuel m (swap compare nothing array i m) (
              omega (arith, h.0, length-swap_eq array i m),
              keeps array i m h.0 (omega arith) (smaller_child_inside array i len l) h.1,
            ))
    ]

    pub heap_again_ind :
        (i : ℕ) (array : List T) → Roomy array → Roomy (heap_again compare nothing array i len)
    unfolding heap_again
    heap_again_ind i array h = again_ind len i array h

    heap_sort_from_ind :
        (n : ℕ) (array : List T) → Roomy array → Roomy (heap_sort_from compare nothing n array len)
    unfolding heap_sort_from
    heap_sort_from_ind zero array h = h
    heap_sort_from_ind (suc n) array h =
        heap_sort_from_ind n (heap_again compare nothing array n len) (heap_again_ind n array h)

    pub heap_sort_ind : (array : List T) → Roomy array → Roomy (heap_sort compare nothing array len)
    unfolding heap_sort
    heap_sort_ind array h = heap_sort_from_ind _ array h
