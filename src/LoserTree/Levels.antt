-- ===== src/LoserTree/Levels.antt =====
-- All players below a node, from the leaves up: the matches at the node and below are played.
use mosito.Base.{
  ℕ, zero, suc, ◌+◌, ◌*◌, ◌≤◌, ◌<◌, ◌≡◌, ap, sym, ◌∙◌, subst, arith, Bool, List, length, leb,
  leb→le, Bool-cases, inl, inr,
}
use mosito.Heap.Sift.{IsOrder}
use mosito.LoserTree.Places.{Level, first, place, leaf_player}
use mosito.LoserTree.Done.{Done, two_leaves, odd_leaf, two_parts}

module _ {ℓ} {T : Type ℓ} (compare : T → T → Bool) (nothing : T) (n s : ℕ) (less : s < n)
    (last : n ≤ 2 * s) (l : List T) (start : List ℕ) where
  Done-to :
      (v i j k : ℕ)
      → j ≡ k
      → Done compare nothing n s less last l start v i j
      → Done compare nothing n s less last l start v i k
  Done-to v i j k e d = subst (Done compare nothing n s less last l start v i) e d

  left_Level : (r w v : ℕ) → Level n s less last (suc r) w v → Level n s less last r (2 * w) (2 * v)
  left_Level r w v k = record {
    width = k.width;
    from = omega (arith, k.from);
    upto = omega (arith, k.upto);
  }

  right_Level :
      (r w v : ℕ) → Level n s less last (suc r) w v → Level n s less last r (2 * w) (2 * v + 1)
  right_Level r w v k = record {
    width = k.width;
    from = omega (arith, k.from);
    upto = omega (arith, k.upto);
  }

  -- The players below a node make the matches at the node and below.
  pub run-Done :
      (r w v : ℕ)
      → IsOrder compare
      → length start ≡ n
      → Level n s less last r w v
      → 0 < v
      → v < n
      → Done compare nothing n s less last l start v
          (first n s less last r v)
          (first n s less last r (v + 1))
  run-Done zero w v order size k h inside = absurd (omega (arith, k.width, k.from, inside, last))
  run-Done (suc r) w v order size k h inside =
      let kl = left_Level r w v k in
      let kr = right_Level r w v k in
      let end : first n s less last r (2 * v + 1 + 1) ≡ first n s less last r (2 * (v + 1)) =
        ap (first n s less last r) (omega arith) in
      Done-to v _ _ _ end (elim (Bool-cases (leb n (2 * v))) [
        | inl e ↦
            let p = leb→le n (2 * v) e in
            let one = leaf_player n s less last r (2 * w) (2 * v) kl p (omega (arith, inside)) in
            let two =
              leaf_player n s less last r (2 * w) (2 * v + 1) kr (omega (arith, p))
                (omega (arith, inside)) in
            Done-to v _ _ _ (sym (two.1 ∙ ap (λ t. t + 1) one.1)) (
              two_leaves compare nothing n s less last l start v (first n s less last r (2 * v))
                order size h inside p one.0
                (ap (λ t. place n s less last (t + 1)) (sym one.1) ∙ two.0)
                (subst (λ t. t < n) one.1 two.2))
        | inr e ↦
            let p : 2 * v < n = ground (arith, e) in
            let d = run-Done r (2 * w) (2 * v) order size kl (omega (arith, h)) p in
            elim (Bool-cases (leb n (2 * v + 1))) [
              | inl f ↦
                  let q = leb→le n (2 * v + 1) f in
                  let two =
                    leaf_player n s less last r (2 * w) (2 * v + 1) kr q (omega (arith, inside)) in
                  Done-to v _ _ _ (sym two.1) (
                    odd_leaf compare nothing n s less last l start v (first n s less last r (2 * v))
                      (first n s less last r (2 * v + 1)) order size h (omega (arith, p, q)) two.0
                      two.2 d)
              | inr f ↦
                  two_parts compare nothing n s less last l start v _ _ _ order size h inside d
                    (run-Done r (2 * w) (2 * v + 1) order size kr (omega arith) (ground (arith, f)))
            ]
      ])
