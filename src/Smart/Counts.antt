-- ===== src/Smart/Counts.antt =====
-- The counts are right: each counts the pointers to its counter, which is allocated as long as there
-- is one.
use mosito.Base.{
  ℕ, zero, suc, ◌+◌, ◌≤◌, ◌<◌, ◌≡◌, refl, ap, Bool, false, Option, none, some, List, [], ◌∷◌, ◌++◌,
  length, get_or, set, ltb, ◌==◌, arith,
}
use mosito.Heap.Same.{count, count-set, bit}
use mosito.Smart.{Store, start, construct, retain, release}

abbrev pub is : ℕ → Option ℕ → Bool
is c none = false
is c (some d) = d == c

abbrev pub pointers_to : ℕ → List (Option ℕ) → ℕ
pointers_to c ps = count (is c) ps

pub record IsCounted (s : Store) : Type 0 where
  pub counted : (c : ℕ) → s.count c ≡ pointers_to c s.pointers
  pub live : (c : ℕ) → s.allocated c ≡ ltb 0 (s.count c)
  pub fresh : (c : ℕ) → s.next ≤ c → s.count c ≡ 0

pub start-IsCounted : IsCounted start
start-IsCounted = record { counted = λ c. refl; live = λ c. refl; fresh = λ c h. refl }

count_append :
    (c : ℕ) (ps : List (Option ℕ)) (p : Option ℕ)
    → pointers_to c (ps ++ p ∷ []) ≡ pointers_to c ps + bit (is c p)
count_append c [] p = omega arith
count_append c (q ∷ ps) p = omega (arith, count_append c ps p)

found_inside :
    (ps : List (Option ℕ)) (i c : ℕ)
    → get_or ps i none ≡ some c
    → (i < length ps) × (0 < pointers_to c ps)
found_inside [] i c e = absurd (ground (arith, e))
found_inside (p ∷ ps) zero c e = rw e (omega arith, ground arith)
found_inside (p ∷ ps) (suc i) c e =
    let r = found_inside ps i c e in (omega (arith, r.0), omega (arith, r.1))

pub construct-IsCounted : (s : Store) → IsCounted s → IsCounted (construct s)
unfolding construct
construct-IsCounted s v = record {
  counted = λ c. ground (arith, v.counted c, v.fresh c, count_append c s.pointers (some s.next));
  live = λ c. ground (arith, v.live c);
  fresh = λ c h. ground (arith, v.fresh c, h);
}

unfoldable pub copied : Store → ℕ → Store
copied s c = record (retain s c) { pointers = s.pointers ++ some c ∷ [] }

pub copied-IsCounted :
    (s : Store) (i c : ℕ) → IsCounted s → get_or s.pointers i none ≡ some c → IsCounted (copied s c)
unfolding copied retain
copied-IsCounted s i c v e =
    let f = found_inside s.pointers i c e in
    record {
      counted = λ d. ground (arith, v.counted d, count_append d s.pointers (some c));
      live = λ d. ground (arith, v.live d, v.counted c, f.1);
      fresh = λ d h. ground (arith, v.fresh d, h, v.counted c, f.1);
    }

unfoldable pub dropped : Store → ℕ → ℕ → Store
dropped s i c = record (release s c) { pointers = set s.pointers i none }

pub dropped-IsCounted :
    (s : Store) (i c : ℕ)
    → IsCounted s
    → get_or s.pointers i none ≡ some c
    → IsCounted (dropped s i c)
unfolding dropped release
dropped-IsCounted s i c v e =
    let f = found_inside s.pointers i c e in
    record {
      counted = λ d. ground (
        arith,
        v.counted d,
        count-set (is d) s.pointers i none none f.0,
        ap (λ p. bit (is d p)) e,
      );
      live = λ d. ground (arith, v.live d);
      fresh = λ d h. ground (arith, v.fresh d, h);
    }

unfoldable pub assigned : Store → ℕ → ℕ → ℕ → Store
assigned s i c d = record (release (retain s d) c) { pointers = set s.pointers i (some d) }

pub assigned-IsCounted :
    (s : Store) (i j c d : ℕ)
    → IsCounted s
    → get_or s.pointers i none ≡ some c
    → get_or s.pointers j none ≡ some d
    → IsCounted (assigned s i c d)
unfolding assigned release retain
assigned-IsCounted s i j c d v e g =
    let f = found_inside s.pointers i c e in
    let h = found_inside s.pointers j d g in
    record {
      counted = λ x. ground (
        arith,
        v.counted x,
        count-set (is x) s.pointers i (some d) none f.0,
        ap (λ p. bit (is x p)) e,
      );
      live = λ x. ground (arith, v.live x, v.counted d, h.1);
      fresh = λ x l. ground (arith, v.fresh x, l, v.counted d, h.1);
    }
