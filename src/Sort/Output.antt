-- ===== src/Sort/Output.antt =====
-- src/physical/m_sort.cpp: `execute` gives out the ranges one after the other, each from its end: one call.
use mosito.Base.{
  ℕ, zero, suc, ◌+◌, ◌-◌, ◌≤◌, ◌<◌, ◌≡◌, refl, ap, sym, ◌∙◌, true, false, Option, some, List, [],
  ◌∷◌, ◌++◌, length, get_or, ◌==◌, arith, Bool-cases, inl, inr, ◌⊎◌,
}
use mathlib.Core.List.{append_assoc, append-nil}
use mosito.Configuration.{cpu_core}
use mosito.Page.{room}
use mosito.Sort.{Sort, pop_back, fill_from}
use mosito.Sort.Remaining.{Tuples, inside, passed, popped, remaining, IsCounted, pop_back-IsCounted}

-- What the inner loop leaves when there is room for `room` tuples.
pub record Filled (s : Sort) (room : ℕ) (block : Tuples) (outcome : Option (Tuples × Sort))
    : Type 0 where
  pub stored : Tuples
  pub next : Sort
  pub result : outcome ≡ some (block ++ stored, next)
  pub left : remaining s ≡ stored ++ remaining next
  pub counted : IsCounted next
  pub fits : length stored ≤ room
  pub full : (length stored ≡ room) ⊎ (remaining next ≡ [])

pub length-zero {ℓ} : {A : Type ℓ} (xs : List A) → length xs ≡ 0 → xs ≡ []
length-zero [] h = refl
length-zero (x ∷ xs) h = absurd (omega arith)

abbrev pass : Sort → Sort
pass s = record s { count = s.count + 1 }

fill_pass :
    (fuel room : ℕ) (s : Sort) (block : Tuples)
    → get_or s.ranges s.count [] ≡ []
    → (s.temp_cur == 0) ≡ false
    → fill_from (suc fuel) (suc room) s block ≡ fill_from fuel (suc room) (pass s) block
unfolding fill_from
fill_pass fuel room s block e f = rw (e, fill_from, f) refl

fill_last :
    (fuel room : ℕ) (s : Sort) (block : Tuples) (tuple : List ℕ) (left : Tuples)
    → get_or s.ranges s.count [] ≡ tuple ∷ left
    → ((pop_back s left).temp_cur == 0) ≡ true
    → fill_from (suc fuel) (suc room) s block ≡ some (block ++ tuple ∷ [], pop_back s left)
unfolding fill_from
fill_last fuel room s block tuple left e f = rw (e, fill_from, f) refl

fill_more :
    (fuel room : ℕ) (s : Sort) (block : Tuples) (tuple : List ℕ) (left : Tuples)
    → get_or s.ranges s.count [] ≡ tuple ∷ left
    → ((pop_back s left).temp_cur == 0) ≡ false
    → fill_from (suc fuel) (suc room) s block
      ≡ fill_from fuel room (pop_back s left) (block ++ tuple ∷ [])
unfolding fill_from
fill_more fuel room s block tuple left e f = rw (e, fill_from, f) refl

pop_back-count : (s : Sort) (left : Tuples) → s.count ≤ (pop_back s left).count
unfolding pop_back
pop_back-count s [] = omega arith
pop_back-count s (x ∷ left) = omega arith

within : (s : Sort) → IsCounted s → 0 < s.temp_cur → s.count < cpu_core
within s c h = omega (arith, inside s c h, c.cores)

-- What `fuel` rounds do from every state.
Fills : ℕ → Type 0
Fills fuel =
    (room : ℕ) (s : Sort) (block : Tuples)
    → room + (cpu_core - s.count) < fuel
    → IsCounted s
    → 0 < s.temp_cur
    → Filled s room block (fill_from fuel room s block)

fill_next :
    (fuel room : ℕ) (s : Sort) (block : Tuples) (tuple : List ℕ) (left : Tuples)
    → Fills fuel
    → suc room + (cpu_core - s.count) < suc fuel
    → get_or s.ranges s.count [] ≡ tuple ∷ left
    → remaining s ≡ tuple ∷ remaining (pop_back s left)
    → IsCounted (pop_back s left)
    → Filled s (suc room) block (fill_from (suc fuel) (suc room) s block)
unfolding Fills
fill_next fuel room s block tuple left ih f e same c =
    elim (Bool-cases ((pop_back s left).temp_cur == 0)) [
      | inl z ↦
          let none_left =
            length-zero (remaining (pop_back s left)) (sym c.temp_cur ∙ ground (arith, z)) in
          record {
            stored = tuple ∷ [];
            next = pop_back s left;
            result = fill_last fuel room s block tuple left e z;
            left = same;
            counted = c;
            fits = omega arith;
            full = inr none_left;
          }
      | inr z ↦
          let r =
            ih room (pop_back s left) (block ++ tuple ∷ [])
              (omega (arith, f, pop_back-count s left)) c (ground (arith, z)) in
          record {
            stored = tuple ∷ r.stored;
            next = r.next;
            result =
                fill_more fuel room s block tuple left e z
                ∙ r.result
                ∙ ap (λ b. some (b, r.next)) (append_assoc block (tuple ∷ []) r.stored);
            left = same ∙ ap (◌∷◌ tuple) r.left;
            counted = r.counted;
            fits = omega (arith, r.fits);
            full = elim r.full [ inl l ↦ inl (ap suc l) | inr l ↦ inr l ];
          }
    ]

fill_at :
    (fuel room : ℕ) (s : Sort) (block : Tuples) (r : Tuples)
    → Fills fuel
    → suc room + (cpu_core - s.count) < suc fuel
    → IsCounted s
    → 0 < s.temp_cur
    → get_or s.ranges s.count [] ≡ r
    → Filled s (suc room) block (fill_from (suc fuel) (suc room) s block)
unfolding Fills
fill_at fuel room s block [] ih f c h e =
    let same = passed s (inside s c h) e in
    let next : IsCounted (pass s) = record {
      temp_cur = c.temp_cur ∙ ap length (sym same);
      cores = c.cores;
    } in
    let r = ih (suc room) (pass s) block (omega (arith, within s c h, f)) next h in
    record {
      stored = r.stored;
      next = r.next;
      result = fill_pass fuel room s block e (ground (arith, h)) ∙ r.result;
      left = sym same ∙ r.left;
      counted = r.counted;
      fits = r.fits;
      full = r.full;
    }
fill_at fuel room s block (tuple ∷ left) ih f c h e =
    fill_next fuel room s block tuple left ih f e (popped s tuple left (inside s c h) e)
      (pop_back-IsCounted s tuple left (inside s c h) e c)

-- With a round for each tuple and each range the loop ends, and has moved tuples from the front of
-- what remains into the block, until that is full or nothing remains.
fill_from-Filled : (fuel : ℕ) → Fills fuel
unfolding Fills
fill_from-Filled zero room s block f c h = absurd (omega arith)
fill_from-Filled (suc fuel) zero s block f c h = record {
  stored = [];
  next = s;
  result = unfold fill_from in ap (λ b. some (b, s)) (sym (append-nil block));
  left = refl;
  counted = c;
  fits = omega arith;
  full = inl refl;
}
fill_from-Filled (suc fuel) (suc room) s block f c h =
    fill_at fuel room s block (get_or s.ranges s.count []) (fill_from-Filled fuel) f c h refl

-- One page, with a round for each tuple that it has room for and each range, and one more.
pub fill_page :
    (room : ℕ) (s : Sort)
    → IsCounted s
    → 0 < s.temp_cur
    → Filled s room [] (fill_from (room + cpu_core + 1) room s [])
unfolding Fills
fill_page room s c h = fill_from-Filled (room + cpu_core + 1) room s [] (omega arith) c h
