-- ===== src/Buffer/Page.antt =====
-- A block as a page: filled with tuples, closed by its tuple count, and read back.
use mosito.Base.{
  ℕ, zero, suc, ◌+◌, ◌*◌, ◌≤◌, ◌<◌, ◌≡◌, refl, ap, subst, ◌∙◌, ◌⊎◌, inl, inr, List, [], ◌∷◌, ◌++◌,
  length, take, drop, arith, none, some, length-append, Bool-cases, leb, leb→le, true, false,
}
use mathlib.Core.List.{append-nil, append_assoc}
use mosito.Base.Bytes.{read_bytes}
use mosito.Buffer.{
  Block, u32_mod, store_tuple, fill, get_size, get_next, Iterator, drain, get_actual_size,
}
use mosito.Buffer.Layout.{tuples_from, AllOfLength, Holds, store_tuple-Holds}

-- What a fill of a block that holds `ys` has done: `n` tuples went in, and it stopped for want of
-- tuples or of room.
pub record Filled (b : Block) (ys xs : List (List ℕ)) (r : Block × List (List ℕ)) (n : ℕ)
    : Type 0 where
  pub count : n ≤ length xs
  pub holds : Holds r.0 (ys ++ take n xs)
  pub left : r.1 ≡ drop n xs
  pub stopped : (n ≡ length xs) ⊎ (b.size < (length ys + n) * b.tuple_size + b.tuple_size)
  pub same_size : r.0.size ≡ b.size
  pub same_tuple : r.0.tuple_size ≡ b.tuple_size

fill_fits :
    (b : Block) (x : List ℕ) (xs : List (List ℕ))
    → leb (b.free + b.tuple_size) b.size ≡ true
    → fill b (x ∷ xs) ≡ fill (store_tuple b b.free x) xs
unfolding fill
fill_fits b x xs e = ground (arith, e)

fill_full :
    (b : Block) (x : List ℕ) (xs : List (List ℕ))
    → leb (b.free + b.tuple_size) b.size ≡ false
    → fill b (x ∷ xs) ≡ (b, x ∷ xs)
unfolding fill
fill_full b x xs e = ground (arith, e)

pub fill-Filled :
    (b : Block) (ys xs : List (List ℕ))
    → Holds b ys
    → AllOfLength b.tuple_size xs
    → (n : ℕ) × Filled b ys xs (fill b xs) n
unfolding fill store_tuple
fill-Filled b ys [] h l = (
  0,
  record {
    count = omega arith;
    holds = rw append-nil h;
    left = refl;
    stopped = inl refl;
    same_size = refl;
    same_tuple = refl;
  },
)
fill-Filled b ys (x ∷ xs) h l = elim (Bool-cases (leb (b.free + b.tuple_size) b.size)) [
  | inl fits ↦ rw (fill_fits b x xs fits) (
      further (
        fill-Filled (store_tuple b b.free x) (ys ++ x ∷ []) xs
          (store_tuple-Holds b ys x h l.0 (leb→le _ _ fits)) l.1))
  | inr full ↦ rw (fill_full b x xs full) (
    0,
    record {
      count = omega arith;
      holds = rw append-nil h;
      left = refl;
      stopped = inr (grind (arith, h.used, leb→le (b.free + b.tuple_size) b.size));
      same_size = refl;
      same_tuple = refl;
    },
  )
]
  where
    further :
        (n : ℕ) × Filled
            (store_tuple b b.free x)
            (ys ++ x ∷ [])
            xs
            (fill (store_tuple b b.free x) xs)
            n
        → (n : ℕ) × Filled b ys (x ∷ xs) (fill (store_tuple b b.free x) xs) n
    further (n, f) = (
      suc n,
      record {
        count = omega (arith, f.count);
        holds =
            subst (Holds (fill (store_tuple b b.free x) xs).0)
              (append_assoc ys (x ∷ []) (take n xs)) f.holds;
        left = f.left;
        stopped = grind (arith, f.stopped, length-append ys (x ∷ []));
        same_size = f.same_size;
        same_tuple = f.same_tuple;
      },
    )

scaled : (i n t : ℕ) → i < n → i * t ≤ n * t
scaled i n t h = grind arith

module _ (b : Block) (n : ℕ) (counted : get_size b ≡ n) (small : n < u32_mod) where
  next_end : (it : Iterator) → it.current ≡ n → (get_next b it).0 ≡ none
  unfolding get_next
  next_end it e = ground (arith, counted)

  next_some :
      (it : Iterator)
      → it.current < n
      → n * b.tuple_size < u32_mod
      → ((get_next b it).0 ≡ some (it.current * b.tuple_size))
        × ((get_next b it).1.current ≡ suc it.current)
  unfolding get_next get_actual_size
  next_some it l s = ground (arith, counted, scaled it.current n b.tuple_size)

  pub drain_from :
      (fuel m : ℕ) (it : Iterator)
      → m < fuel
      → it.current + m ≡ n
      → n * b.tuple_size < u32_mod
      → drain fuel b it ≡ tuples_from b.mem b.tuple_size (it.current * b.tuple_size) m
  unfolding drain
  drain_from zero m it f e s = absurd (omega arith)
  drain_from (suc fuel) zero it f e s = rw (next_end it (omega arith), drain) refl
  drain_from (suc fuel) (suc m) it f e s =
      rw ((next_some it (omega arith) s).0, drain)
        (ap (◌∷◌ (read_bytes b.mem (it.current * b.tuple_size) b.tuple_size)) (
          drain_from fuel m (get_next b it).1 (omega arith)
            (omega (arith, (next_some it (omega arith) s).1)) s
          ∙ ap (λ o. tuples_from b.mem b.tuple_size o m)
              (rw (next_some it (omega arith) s).1 (grind arith))))
