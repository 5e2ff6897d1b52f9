-- ===== src/Buffer/Flex.antt =====
-- FlexBlock: a block that doubles until the tuple fits keeps all that it holds.
use mosito.Base.{
  ℕ, zero, suc, ◌+◌, ◌*◌, ◌%◌, ◌≤◌, ◌<◌, ◌≡◌, refl, ap₂, ◌∙◌, inl, inr, List, [], ◌∷◌, ◌++◌, length,
  arith, subst, length-append, Option, some, leb, leb→le, Bool-cases, true, false,
}
use mathlib.Core.List.{append-nil, append_assoc}
use mosito.Buffer.{Block, Allocator, u32_mod, store_tuple, double_buffer, store_tuple_ok, store_all}
use mosito.Buffer.Layout.{tuples_from, AllOfLength, Holds, store_tuple-Holds}

module _ (a : Allocator) where
  tuples_from-realloc :
      (mem : List ℕ) (size ts o n : ℕ)
      → o + n * ts ≤ length mem
      → o + n * ts ≤ size
      → tuples_from (a.realloc mem size) ts o n ≡ tuples_from mem ts o n
  tuples_from-realloc mem size ts o zero h k = refl
  tuples_from-realloc mem size ts o (suc n) h k =
      ap₂ ◌∷◌ (a.realloc-keeps mem size o ts (grind arith) (grind arith))
        (tuples_from-realloc mem size ts (o + ts) n (grind arith) (grind arith))

  -- Growing keeps the tuples, as long as the size stays below 2 ^ 32.
  double_buffer-Holds :
      (b : Block) (xs : List (List ℕ))
      → Holds b xs
      → b.size * 2 < u32_mod
      → Holds (double_buffer a b) xs
  unfolding double_buffer
  double_buffer-Holds b xs h s = record {
    fits = omega (arith, h.fits);
    allocated = omega (arith, a.length-realloc b.mem (b.size * 2 % u32_mod));
    used = h.used;
    tuples =
        tuples_from-realloc b.mem (b.size * 2 % u32_mod) b.tuple_size 0 (length xs)
          (omega (arith, h.used, h.fits, h.allocated)) (omega (arith, h.used, h.fits))
        ∙ h.tuples;
  }

  -- A growing block after a store: it holds the tuples, and has not become smaller.
  pub record Stored (b : Block) (xs : List (List ℕ)) (r : Option Block) : Type 0 where
    pub block : Block
    pub returned : r ≡ some block
    pub holds : Holds block xs
    pub same_tuple : block.tuple_size ≡ b.tuple_size
    pub grown : b.size ≤ block.size

  store_fits :
      (fuel : ℕ) (b : Block) (x : List ℕ)
      → leb (b.free + b.tuple_size) b.size ≡ true
      → store_tuple_ok a (suc fuel) b x ≡ some (store_tuple b b.free x)
  unfolding store_tuple_ok
  store_fits fuel b x e = ground (arith, e)

  store_grows :
      (fuel : ℕ) (b : Block) (x : List ℕ)
      → leb (b.free + b.tuple_size) b.size ≡ false
      → store_tuple_ok a (suc fuel) b x ≡ store_tuple_ok a fuel (double_buffer a b) x
  unfolding store_tuple_ok
  store_grows fuel b x e = ground (arith, e)

  -- With fuel for every byte that is missing, and at least 1, `storeTupleOK` on a block that is not of
  -- size 0 comes to an end: the tuple is stored behind those that were there. The tuples take at most
  -- 2 ^ 31 bytes.
  pub store_tuple_ok-Stored :
      (fuel : ℕ) (b : Block) (xs : List (List ℕ)) (x : List ℕ)
      → Holds b xs
      → length x ≡ b.tuple_size
      → 0 < b.size
      → 0 < fuel
      → b.free + b.tuple_size < fuel + b.size
      → b.free + b.tuple_size ≤ 2147483648
      → Stored b (xs ++ x ∷ []) (store_tuple_ok a fuel b x)
  unfolding double_buffer store_tuple
  store_tuple_ok-Stored zero b xs x h w p q f s = absurd (omega arith)
  store_tuple_ok-Stored (suc fuel) b xs x h w p q f s =
      elim (Bool-cases (leb (b.free + b.tuple_size) b.size)) [
        | inl fits ↦ rw (store_fits fuel b x fits) (record {
          block = store_tuple b b.free x;
          returned = refl;
          holds = store_tuple-Holds b xs x h w (leb→le _ _ fits);
          same_tuple = refl;
          grown = omega arith;
        })
        | inr full ↦
            let over : b.size < b.free + b.tuple_size = ground (arith, full) in
            rw (store_grows fuel b x full) (
              from_doubled over (
                store_tuple_ok-Stored fuel (double_buffer a b) xs x
                  (double_buffer-Holds b xs h (omega arith)) w (omega arith) (omega arith)
                  (omega arith) s))
      ]
    where
      from_doubled :
          b.size < b.free + b.tuple_size
          → Stored (double_buffer a b) (xs ++ x ∷ []) (store_tuple_ok a fuel (double_buffer a b) x)
          → Stored b (xs ++ x ∷ []) (store_tuple_ok a fuel (double_buffer a b) x)
      from_doubled over r = record {
        block = r.block;
        returned = r.returned;
        holds = r.holds;
        same_tuple = r.same_tuple;
        grown = omega (arith, r.grown);
      }

  store_all-some :
      (fuel : ℕ) (b : Block) (x : List ℕ) (xs : List (List ℕ)) {b' : Block}
      → store_tuple_ok a fuel b x ≡ some b'
      → store_all a fuel b (x ∷ xs) ≡ store_all a fuel b' xs
  unfolding store_all
  store_all-some fuel b x xs e = rw (e, store_all) refl

  -- Gathering a stream of tuples of the tuple size into a growing block that is not of size 0 comes
  -- to an end with more fuel than there are bytes in all; it loses none of the tuples and keeps their
  -- order. All tuples together take at most 2 ^ 31 bytes.
  pub store_all-Stored :
      (fuel : ℕ) (b : Block) (ys xs : List (List ℕ))
      → Holds b ys
      → AllOfLength b.tuple_size xs
      → 0 < b.size
      → (length ys + length xs) * b.tuple_size < fuel
      → (length ys + length xs) * b.tuple_size ≤ 2147483648
      → Stored b (ys ++ xs) (store_all a fuel b xs)
  unfolding store_all
  store_all-Stored fuel b ys [] h w p f s = record {
    block = b;
    returned = refl;
    holds = rw append-nil h;
    same_tuple = refl;
    grown = omega arith;
  }
  store_all-Stored fuel b ys (x ∷ xs) h w p f s =
      let total : b.free + b.tuple_size ≤ (length ys + length (x ∷ xs)) * b.tuple_size =
        grind (arith, h.used) in
      let r = store_tuple_ok-Stored fuel b ys x h w.0 p (omega arith) (omega arith) (omega arith) in
      rest r (
        store_all-Stored fuel r.block (ys ++ x ∷ []) xs r.holds (rw r.same_tuple w.1)
          (omega (arith, r.grown)) (bound r f) (bound' r s))
    where
      size_eq :
          (r : Stored b (ys ++ x ∷ []) (store_tuple_ok a fuel b x))
          → (length (ys ++ x ∷ []) + length xs) * r.block.tuple_size
            ≡ (length ys + length (x ∷ xs)) * b.tuple_size
      size_eq r = ap₂ ◌*◌ (omega (arith, length-append ys (x ∷ []))) r.same_tuple

      bound :
          (r : Stored b (ys ++ x ∷ []) (store_tuple_ok a fuel b x))
          → (length ys + length (x ∷ xs)) * b.tuple_size < fuel
          → (length (ys ++ x ∷ []) + length xs) * r.block.tuple_size < fuel
      bound r h = rw (size_eq r) h

      bound' :
          (r : Stored b (ys ++ x ∷ []) (store_tuple_ok a fuel b x))
          → (length ys + length (x ∷ xs)) * b.tuple_size ≤ 2147483648
          → (length (ys ++ x ∷ []) + length xs) * r.block.tuple_size ≤ 2147483648
      bound' r h = rw (size_eq r) h

      rest :
          (r : Stored b (ys ++ x ∷ []) (store_tuple_ok a fuel b x))
          → Stored r.block ((ys ++ x ∷ []) ++ xs) (store_all a fuel r.block xs)
          → Stored b (ys ++ x ∷ xs) (store_all a fuel b (x ∷ xs))
      rest r q = record {
        block = q.block;
        returned = store_all-some fuel b x xs r.returned ∙ q.returned;
        holds = subst (Holds q.block) (append_assoc ys (x ∷ []) xs) q.holds;
        same_tuple = q.same_tuple ∙ r.same_tuple;
        grown = omega (arith, r.grown, q.grown);
      }
