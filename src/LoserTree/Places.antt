-- ===== src/LoserTree/Places.antt =====
-- Where the players stand in the tree of `n` leaves: from left to right in their order.
use mosito.Base.{
  ℕ, zero, suc, ◌+◌, ◌-◌, ◌*◌, ◌/◌, ◌≤◌, ◌<◌, ◌≡◌, refl, ap, ◌∙◌, arith, true, false, leb,
  if◌then◌else◌, leb→le, Bool-cases, inl, inr, ◌⊎◌,
}
use mosito.LoserTree.{leaf, double_from}
use mosito.LoserTree.Won.{IsPlacing}

-- The leftmost node that is `r` levels below `v`.
abbrev pub leftmost : ℕ → ℕ → ℕ
leftmost zero v = v
leftmost (suc r) v = leftmost r (2 * v)

pub leftmost_double : (r v : ℕ) → leftmost r (2 * v) ≡ 2 * leftmost r v
leftmost_double zero v = refl
leftmost_double (suc r) v = leftmost_double r (2 * v)

pub leftmost_le : (r v : ℕ) → v ≤ leftmost r v
leftmost_le zero v = omega arith
leftmost_le (suc r) v = omega (arith, leftmost_le r (2 * v))

-- `s` is the largest power of 2 that is less than `n`.
pub record Doubled (n s : ℕ) : Type 0 where
  pub r : ℕ
  pub power : leftmost r 1 ≡ s
  pub less : s < n
  pub last : n ≤ 2 * s

double_from_ind :
    (fuel n r s : ℕ)
    → leftmost r 1 ≡ s
    → 0 < s
    → s < n
    → n ≤ fuel + s
    → Doubled n (double_from fuel n s)
unfolding double_from
double_from_ind zero n r s e p h f = absurd (omega arith)
double_from_ind (suc fuel) n r s e p h f = elim (Bool-cases (leb (2 * s) (n - 1))) [
  | inl t ↦
      let k = leb→le (2 * s) (n - 1) t in
      rw (t, double_from)
        (double_from_ind fuel n (suc r) (s + s) (leftmost_double r 1 ∙ ap (λ z. 2 * z) e ∙ twice s)
          (omega (arith, p)) (omega (arith, k, h)) (omega (arith, p, f)))
  | inr t ↦ rw (t, double_from) (record { r = r; power = e; less = h; last = ground (arith, t) })
]
  where
    twice : (s : ℕ) → 2 * s ≡ s + s
    twice s = omega arith

pub double_from-Doubled : (n : ℕ) → 1 < n → Doubled n (double_from n n 1)
double_from-Doubled n h = double_from_ind n n 0 1 refl (omega arith) h (omega arith)

module _ (n s : ℕ) (less : s < n) (last : n ≤ 2 * s) where
  abbrev pub low : ℕ
  low = 2 * (n - s)

  abbrev pub place : ℕ → ℕ
  place = leaf n low (2 * s - 1)

  pub place-low : (i : ℕ) → i ≤ low → place i ≡ i + (2 * s - 1)
  unfolding leaf
  place-low i h = let e : leb i low ≡ true = ground (arith, h) in rw e refl

  pub place-high : (i : ℕ) → low < i → place i ≡ i - low + n - 1
  unfolding leaf
  place-high i h = let e : leb i low ≡ false = ground (arith, h) in rw e refl

  pub placing : IsPlacing n place
  placing = record { leaves = leaves; distinct = distinct }
    where
      either :
          (i : ℕ)
          → ((i ≤ low) × (place i ≡ i + (2 * s - 1))) ⊎ ((low < i) × (place i ≡ i - low + n - 1))
      either i = elim (Bool-cases (leb i low)) [
        | inl e ↦ inl (leb→le i low e, place-low i (leb→le i low e))
        | inr e ↦ inr (ground (arith, e), place-high i (ground (arith, e)))
      ]

      leaves : (i : ℕ) → 0 < i → i ≤ n → (n ≤ place i) × (place i < 2 * n)
      leaves i h k = elim (Bool-cases (leb i low)) [
        | inl e ↦
            let q = leb→le i low e in
            (
              omega (arith, place-low i q, h, k, less, last),
              omega (arith, place-low i q, q, h, less, last),
            )
        | inr e ↦
            let q : low < i = ground (arith, e) in
            (
              omega (arith, place-high i q, q, less, last),
              omega (arith, place-high i q, q, k, less, last),
            )
      ]

      distinct : (i j : ℕ) → 0 < i → i ≤ n → 0 < j → j ≤ n → place i ≡ place j → i ≡ j
      distinct i j p h q k e = omega (arith, p, h, q, k, e, either i, either j)

  -- The players to the left of place `j` of the lowest level.
  abbrev pub before : ℕ → ℕ
  before j = if leb j low then j else low + (j - low) / 2

  -- Node `v` is on the level of `w`, that has `r` levels below it.
  pub record Level (r w v : ℕ) : Type 0 where
    pub width : leftmost r w ≡ 2 * s
    pub from : w ≤ v
    pub upto : v < 2 * w

  abbrev pub first : ℕ → ℕ → ℕ
  first r v = before (leftmost r v - 2 * s)

  -- A leaf has one player, the next one behind those to its left.
  pub leaf_player :
      (r w u : ℕ)
      → Level r w u
      → n ≤ u
      → u < 2 * n
      → (place (first r u + 1) ≡ u) × (first r (u + 1) ≡ first r u + 1) × (first r u < n)
  leaf_player zero w u k h m =
      let p = k.width in
      let q = k.from in
      let e : first 0 u ≡ u - 2 * s = ground (arith, p, q, m, less, last) in
      (
        omega (
          arith,
          e,
          p,
          q,
          m,
          less,
          last,
          place-low (first 0 u + 1) (omega (arith, e, p, q, m, less, last)),
        ),
        ground (arith, p, q, m, less, last),
        omega (arith, e, p, q, m, less, last),
      )
  leaf_player (suc zero) w u k h m =
      let p = k.width in
      let q = k.upto in
      let e : first 1 u ≡ low + (u - n) = ground (arith, p, q, h, less, last) in
      (
        omega (arith, e, p, q, h, less, last, place-high (first 1 u + 1) (omega (arith, e, h))),
        ground (arith, p, q, h, less, last),
        omega (arith, e, p, q, h, less, last),
      )
  leaf_player (suc (suc r)) w u k h m =
      absurd (omega (arith, k.width, k.upto, h, less, leftmost_le r (2 * (2 * w))))

  -- All players are below the root.
  pub all_players : (r : ℕ) → leftmost r 1 ≡ s → first (suc r) (1 + 1) ≡ n
  all_players r e =
      let four : leftmost r 4 ≡ 4 * s =
        leftmost_double r 2
        ∙ ap (λ z. 2 * z) (leftmost_double r 1 ∙ ap (λ z. 2 * z) e)
        ∙ omega arith in
      ground (arith, four, less, last)
