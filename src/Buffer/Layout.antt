-- ===== src/Buffer/Layout.antt =====
-- Where the tuples of a block lie, and that it keeps those that it is given.
use mosito.Base.{
  ℕ, zero, suc, ◌+◌, ◌*◌, ◌≤◌, ◌≡◌, refl, ap, ap₂, ◌∙◌, List, [], ◌∷◌, ◌++◌, length, take, arith,
  length-append,
}
use mosito.Base.Bytes.{
  write_bytes, read_bytes, length-write_bytes, read-write_self, read-write_before,
}
use mosito.Buffer.{Block, store_tuple}

-- The `n` tuples of `ts` bytes from offset `o` on.
abbrev pub tuples_from : List ℕ → ℕ → ℕ → ℕ → List (List ℕ)
tuples_from mem ts o zero = []
tuples_from mem ts o (suc n) = read_bytes mem o ts ∷ tuples_from mem ts (o + ts) n

abbrev pub AllOfLength : ℕ → List (List ℕ) → Type 0
AllOfLength ts [] = Unit {0}
AllOfLength ts (x ∷ xs) = (length x ≡ ts) × AllOfLength ts xs

-- A block that is a prefix of `xs` up to `free`, within its allocation.
pub record Holds (b : Block) (xs : List (List ℕ)) : Type 0 where
  pub fits : b.free ≤ b.size
  pub allocated : b.size ≤ length b.mem
  pub used : b.free ≡ length xs * b.tuple_size
  pub tuples : tuples_from b.mem b.tuple_size 0 (length xs) ≡ xs

pub take_all {ℓ} : {A : Type ℓ} (xs : List A) → take (length xs) xs ≡ xs
take_all [] = refl
take_all (x ∷ xs) = ap (◌∷◌ x) (take_all xs)

pub tuples_from-write :
    (mem : List ℕ) (ts o n off : ℕ) (bs : List ℕ)
    → o + n * ts ≤ off
    → tuples_from (write_bytes mem off bs) ts o n ≡ tuples_from mem ts o n
tuples_from-write mem ts o zero off bs h = refl
tuples_from-write mem ts o (suc n) off bs h =
    ap₂ ◌∷◌ (read-write_before mem off bs o ts (grind arith))
      (tuples_from-write mem ts (o + ts) n off bs (grind arith))

pub tuples_from-snoc :
    (mem : List ℕ) (ts o n : ℕ)
    → tuples_from mem ts o (suc n) ≡ tuples_from mem ts o n ++ read_bytes mem (o + n * ts) ts ∷ []
tuples_from-snoc mem ts o zero = ap (λ k. read_bytes mem k ts ∷ []) (omega arith)
tuples_from-snoc mem ts o (suc n) = ap (◌∷◌ (read_bytes mem o ts)) (
    tuples_from-snoc mem ts (o + ts) n
    ∙ ap (λ k. tuples_from mem ts (o + ts) n ++ read_bytes mem k ts ∷ []) (grind arith))

pub length-snoc {ℓ} : {A : Type ℓ} (xs : List A) (x : A) → length (xs ++ x ∷ []) ≡ suc (length xs)
length-snoc xs x = omega (arith, length-append xs (x ∷ []))

pub read-write_tuple :
    (mem : List ℕ) (off ts : ℕ) (x : List ℕ)
    → length x ≡ ts
    → off + ts ≤ length mem
    → read_bytes (write_bytes mem off (take ts x)) off ts ≡ x
read-write_tuple mem off ts x e h = rw (← e, take_all x) (read-write_self mem off x (omega arith))

-- Storing at `free` adds the tuple behind those that the block holds.
pub store_tuple-Holds :
    (b : Block) (xs : List (List ℕ)) (x : List ℕ)
    → Holds b xs
    → length x ≡ b.tuple_size
    → b.free + b.tuple_size ≤ b.size
    → Holds (store_tuple b b.free x) (xs ++ x ∷ [])
unfolding store_tuple
store_tuple-Holds b xs x h e room = record {
  fits = room;
  allocated = omega (arith, length-write_bytes b.mem b.free (take b.tuple_size x), h.allocated);
  used = rw (length-snoc xs x) (grind (arith, h.used));
  tuples = rw (length-snoc xs x) (
      tuples_from-snoc (write_bytes b.mem b.free (take ts x)) ts 0 (length xs)
      ∙ ap₂ (λ l y. l ++ y ∷ [])
          (tuples_from-write b.mem ts 0 (length xs) b.free (take ts x) (omega (arith, h.used))
            ∙ h.tuples)
          (ap (λ k. read_bytes (write_bytes b.mem b.free (take ts x)) k ts) (omega (arith, h.used))
            ∙ read-write_tuple b.mem b.free ts x e (omega (arith, h.allocated))));
}
  where
    ts : ℕ
    ts = b.tuple_size
