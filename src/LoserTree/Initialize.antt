-- ===== src/LoserTree/Initialize.antt =====
-- `initialize` plays the matches in the order of the players, from left to right.
use mosito.Base.{
  ℕ, zero, suc, ◌+◌, ◌-◌, ◌*◌, ◌/◌, ◌%◌, ◌≤◌, ◌<◌, ◌≡◌, refl, ap, ap₂, sym, ◌∙◌, subst, arith, Bool,
  true, false, List, get_or, set, length, leb, ◌==◌, if◌then◌else◌, Bool-cases, inl, inr,
  get_or-set_self, get_or-set_ne,
}
use mosito.Heap.Sift.{IsOrder}
use mosito.LoserTree.{play, play_low, play_high, initialize, double_from}
use mosito.LoserTree.Above.{Above_le}
use mosito.LoserTree.Won.{Won, IsTournament, Won-frame}
use mosito.LoserTree.Rising.{play_one}
use mosito.LoserTree.Places.{
  leftmost_double, leftmost_le, leftmost, Level, first, low, place, all_players, placing, place-low,
  place-high, double_from-Doubled,
}
use mosito.LoserTree.Turns.{act, run, act_waits, act_odd, act_pair, length-run}
use mosito.LoserTree.Levels.{run-Done}

module _ {ℓ} {T : Type ℓ} (compare : T → T → Bool) (nothing : T) (n s : ℕ) (less : s < n)
    (last : n ≤ 2 * s) (l : List T) (start : List ℕ) where
  abbrev turns : ℕ → List ℕ
  turns i = run compare nothing n s less last l start i

  -- Two players that stand beside each other at leaves.
  pair_turns :
      (j v : ℕ)
      → place n s less last (suc j) ≡ 2 * v
      → place n s less last (suc (suc j)) ≡ 2 * v + 1
      → n ≤ 2 * v
      → play compare nothing l v (j + 2 - 1) (j + 2) (turns j) ≡ turns (j + 2)
  unfolding run
  pair_turns j v e f h =
      let two : j + 2 ≡ suc (suc j) = omega arith in
      ap₂ (λ t u. play compare nothing l v t u (turns j)) (omega arith) two
      ∙ sym (
          act_pair compare nothing n s less last l start (suc (suc j)) v
            (act compare nothing n s less last l start (suc j) (turns j)) f
            (λ z. omega (arith, z, h))
          ∙ ap (play compare nothing l v (suc (suc j) - 1) (suc (suc j))) (
              act_waits compare nothing n s less last l start (suc j) (turns j) (omega (arith, e))))
      ∙ sym (ap turns two)

  low_round :
      (fuel j : ℕ)
      → j + 2 ≤ low n s less last
      → play_low compare nothing (suc fuel) l (low n s less last) (2 * s - 1) (j + 2) (turns j)
        ≡ play_low compare nothing fuel l
            (low n s less last)
            (2 * s - 1)
            (j + 2 + 2)
            (play compare nothing l ((j + 2 + (2 * s - 1)) / 2) (j + 2 - 1) (j + 2) (turns j))
  unfolding play_low
  low_round fuel j h =
      let e : leb (j + 2) (low n s less last) ≡ true = ground (arith, h) in rw (e, play_low) refl

  low-turns :
      (fuel j k : ℕ)
      → j + 2 * k ≡ low n s less last
      → j % 2 ≡ 0
      → k < fuel
      → play_low compare nothing fuel l (low n s less last) (2 * s - 1) (j + 2) (turns j)
        ≡ turns (low n s less last)
  low-turns zero j k e p f = absurd (omega arith)
  low-turns (suc fuel) j zero e p f =
      let q : leb (j + 2) (low n s less last) ≡ false = ground (arith, e) in
      unfold play_low in rw (q, play_low) (ap turns (omega (arith, e)))
  low-turns (suc fuel) j (suc k) e p f =
      let one = place-low n s less last (suc j) (omega (arith, e)) in
      let two = place-low n s less last (suc (suc j)) (omega (arith, e)) in
      low_round fuel j (omega (arith, e))
      ∙ ap (play_low compare nothing fuel l (low n s less last) (2 * s - 1) (j + 2 + 2)) (
          pair_turns j ((j + 2 + (2 * s - 1)) / 2) (omega (arith, one, p, less, last))
            (omega (arith, two, p, less, last)) (omega (arith, p, less, last)))
      ∙ low-turns fuel (j + 2) k (omega (arith, e)) (omega (arith, p)) (omega (arith, f))

  high_round :
      (fuel j : ℕ)
      → j + 2 ≤ n
      → play_high compare nothing (suc fuel) l (low n s less last) n (j + 2) (turns j)
        ≡ play_high compare nothing fuel l (low n s less last) n (j + 2 + 2) (
            play compare nothing l
              ((j + 2 - low n s less last + n - 1) / 2)
              (j + 2 - 1)
              (j + 2)
              (turns j))
  unfolding play_high
  high_round fuel j h = let e : leb (j + 2) n ≡ true = ground (arith, h) in rw (e, play_high) refl

  high_turns :
      (fuel j k : ℕ)
      → j + 2 * k ≡ n
      → low n s less last ≤ j
      → k < fuel
      → play_high compare nothing fuel l (low n s less last) n (j + 2) (turns j) ≡ turns n
  high_turns zero j k e p f = absurd (omega arith)
  high_turns (suc fuel) j zero e p f =
      let q : leb (j + 2) n ≡ false = ground (arith, e) in
      unfold play_high in rw (q, play_high) (ap turns (omega (arith, e)))
  high_turns (suc fuel) j (suc k) e p f =
      let one = place-high n s less last (suc j) (omega (arith, p)) in
      let two = place-high n s less last (suc (suc j)) (omega (arith, p)) in
      high_round fuel j (omega (arith, e))
      ∙ ap (play_high compare nothing fuel l (low n s less last) n (j + 2 + 2)) (
          pair_turns j ((j + 2 - low n s less last + n - 1) / 2)
            (omega (arith, one, p, e, less, last)) (omega (arith, two, p, e, less, last))
            (omega (arith, p, e, less, last)))
      ∙ high_turns fuel (j + 2) k (omega (arith, e)) (omega (arith, p)) (omega (arith, f))

  odd_turn :
      n % 2 ≡ 1
      → play compare nothing l
          (n / 2)
          (get_or (turns (low n s less last)) ((n - 1) / 2) 0)
          (low n s less last + 1)
          (turns (low n s less last))
        ≡ turns (low n s less last + 1)
  unfolding run
  odd_turn h =
      let k = low n s less last in
      let one : k + 1 ≡ suc k = omega arith in
      ap (λ t. play compare nothing l (n / 2) (get_or (turns k) ((n - 1) / 2) 0) t (turns k)) one
      ∙ sym (
          act_odd compare nothing n s less last l start (suc k) (turns k)
            (place-high n s less last (suc k) (omega arith) ∙ omega (arith, less)) h)
      ∙ sym (ap turns one)

  -- The array that `initialize` leaves.
  all_turns :
      (m : List ℕ)
      → 0 < s
      → m ≡ turns (low n s less last)
      → (if n % 2 == 1
          then play_high compare nothing n l
              (low n s less last)
              n
              (low n s less last + 3)
              (play compare nothing l (n / 2) (get_or m ((n - 1) / 2) 0) (low n s less last + 1) m)
          else play_high compare nothing n l (low n s less last) n (low n s less last + 2) m)
        ≡ turns n
  all_turns m h e = elim (Bool-cases (n % 2 == 1)) [
    | inl o ↦
        let p : n % 2 ≡ 1 = ground (arith, o) in
        rw (o, e)
          (ap₂ (λ t u. play_high compare nothing n l (low n s less last) n t u) (omega arith)
              (odd_turn p)
            ∙ high_turns n (low n s less last + 1) ((n - (low n s less last + 1)) / 2)
                (omega (arith, p, less, last)) (omega arith) (omega (arith, less, h)))
    | inr o ↦
        let p : n % 2 ≡ 0 = ground (arith, o) in
        rw (o, e)
          (high_turns n (low n s less last) ((n - low n s less last) / 2)
            (omega (arith, p, less, last)) (omega arith) (omega (arith, less, h)))
  ]

  -- After the last player the whole tournament is played.
  turns_played :
      (r : ℕ)
      → IsOrder compare
      → 1 < n
      → length start ≡ n
      → leftmost r 1 ≡ s
      → (length (turns n) ≡ n)
        × Won compare nothing n (place n s less last) l (turns n) 1 (get_or (turns n) 0 0)
  turns_played r order h size e =
      let level : Level n s less last (suc r) 1 1 = record {
        width = leftmost_double r 1 ∙ ap (λ z. 2 * z) e;
        from = omega arith;
        upto = omega arith;
      } in
      let d =
        run-Done compare nothing n s less last l start (suc r) 1 1 order size level (omega arith)
          h in
      let end : first n s less last (suc r) (1 + 1) ≡ n = all_players n s less last r e in
      let reached : turns n ≡ set d.c 0 d.w =
        sym (ap turns end) ∙ d.reached ∙ play_one compare nothing l d.w d.c in
      let now : get_or (turns n) 0 0 ≡ d.w =
        ap (λ t. get_or t 0 0) reached ∙ get_or-set_self d.c 0 d.w 0 (omega (arith, d.size, h)) in
      (
        length-run compare nothing n s less last l start n ∙ size,
        subst (λ t. Won compare nothing n (place n s less last) l (turns n) 1 t) (sym now)
            (subst (λ t. Won compare nothing n (place n s less last) l t 1 d.w) (sym reached)
              (Won-frame compare nothing n (place n s less last) l l d.c (set d.c 0 d.w) 1 d.w
                (λ x a. get_or-set_ne d.c 0 x d.w 0 (λ z. omega (arith, z, Above_le 1 x a)))
                (λ x a. refl) d.won)),
      )

module _ {ℓ} {T : Type ℓ} (compare : T → T → Bool) (nothing : T) where
  -- For two players or more and an array of one more place than players, `initialize` plays the
  -- whole tournament among the tuples of the array, whatever was in the new array of losers.
  pub initialize-IsTournament :
      (a : List T) (size : ℕ) (b : List ℕ)
      → IsOrder compare
      → 1 < size
      → length a ≡ size + 1
      → length b ≡ size
      → IsTournament compare nothing (initialize compare nothing a size b)
        × ((initialize compare nothing a size b).l ≡ a)
        × ((initialize compare nothing a size b).n ≡ size)
  unfolding initialize run
  initialize-IsTournament a size b order h slots nodes =
      let d = double_from-Doubled size h in
      let s = double_from size size 1 in
      let positive : 0 < s = omega (arith, d.power, leftmost_le d.r 1) in
      let played =
        turns_played compare nothing size s d.less d.last a b d.r order h nodes d.power in
      let lows =
        low-turns compare nothing size s d.less d.last a b size 0 (size - s) (omega arith)
          (omega arith) (omega (arith, d.less, positive)) in
      let all = all_turns compare nothing size s d.less d.last a b _ positive lows in
      (
        record {
          many = h;
          nodes = ap length all ∙ played.0;
          slots = slots;
          placing = placing size s d.less d.last;
          won =
              subst
                (λ t. Won compare nothing size (place size s d.less d.last) a t 1 (get_or t 0 0))
                (sym all) played.1;
        },
        refl,
        refl,
      )
