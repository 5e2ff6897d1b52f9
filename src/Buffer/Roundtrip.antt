-- ===== src/Buffer/Roundtrip.antt =====
-- Pages written by `fill`, closed by `build` or `assembling`, and read back by the iterator.
use mosito.Base.{
  ℕ, zero, suc, ◌+◌, ◌-◌, ◌*◌, ◌/◌, ◌≤◌, ◌<◌, ◌≡◌, refl, ap, ap₂, sym, ◌∙◌, ◌⊎◌, inl, inr, List, [],
  ◌∷◌, length, take, drop, min, arith, subst, length-take,
}
use native.Mathlib.Nat.{
  div-add-mod, le-div_iff_mul-le, div-mul-le_self, div-eq_of_lt-le, div-eq_of_eq-mul_left,
}
use mosito.Base.Bytes.{read_bytes, set_u32, get_u32-set_u32, read-set_u32_before}
use mosito.Buffer.{Block, u32_mod, fill, assembling, build, get_size, create_iterator, drain}
use mosito.Buffer.Layout.{tuples_from, AllOfLength, Holds}
use mosito.Buffer.Page.{Filled, fill-Filled, drain_from}

tuples_from-take :
    (mem : List ℕ) (ts o c n : ℕ) → c ≤ n → take c (tuples_from mem ts o n) ≡ tuples_from mem ts o c
tuples_from-take mem ts o zero n h = refl
tuples_from-take mem ts o (suc c) zero h = absurd (omega arith)
tuples_from-take mem ts o (suc c) (suc n) h =
    ap (◌∷◌ (read_bytes mem o ts)) (tuples_from-take mem ts (o + ts) c n (omega arith))

tuples_from-set_u32 :
    (mem : List ℕ) (ts o n off x : ℕ)
    → o + n * ts ≤ off
    → tuples_from (set_u32 mem off x) ts o n ≡ tuples_from mem ts o n
tuples_from-set_u32 mem ts o zero off x h = refl
tuples_from-set_u32 mem ts o (suc n) off x h =
    ap₂ ◌∷◌ (read-set_u32_before mem off x o ts (grind arith))
      (tuples_from-set_u32 mem ts (o + ts) n off x (grind arith))

-- A page whose tail says `c` yields the first `c` of the tuples that it holds.
pub drain-build :
    (b : Block) (xs : List (List ℕ)) (c fuel junk : ℕ)
    → Holds b xs
    → c ≤ length xs
    → c * b.tuple_size + 4 ≤ b.size
    → c < u32_mod
    → b.size < u32_mod
    → c < fuel
    → drain fuel (build b b.size c) (create_iterator junk) ≡ take c xs
unfolding build create_iterator get_size
drain-build b xs c fuel junk h n room c32 s32 f =
    drain_from (build b b.size c) c
      (get_u32-set_u32 b.mem (b.size - 4) c (omega (arith, h.allocated)) c32) c32 fuel c
      (create_iterator junk) f (omega arith) (omega arith)
    ∙ ap (λ o. tuples_from (set_u32 b.mem (b.size - 4) c) b.tuple_size o c) (omega arith)
    ∙ tuples_from-set_u32 b.mem b.tuple_size 0 c (b.size - 4) c (omega arith)
    ∙ sym (tuples_from-take b.mem b.tuple_size 0 c (length xs) n)
    ∙ ap (take c) h.tuples

-- An empty page within its allocation.
pub record IsFresh (b : Block) : Type 0 where
  pub at_start : b.free ≡ 0
  pub allocated : b.size ≤ length b.mem

pub IsFresh-Holds : (b : Block) → IsFresh b → Holds b []
IsFresh-Holds b h = record {
  fits = omega (arith, h.at_start);
  allocated = h.allocated;
  used = omega (arith, h.at_start);
  tuples = refl;
}

filled_count :
    (n l s t : ℕ) → n ≤ l → n * t ≤ s → (n ≡ l) ⊎ (s < n * t + t) → 0 < t → n ≡ min l (s / t)
filled_count n l s t a c d p = grind (arith, div-add-mod s t)

take-take {ℓ} : {A : Type ℓ} (c n : ℕ) (xs : List A) → c ≤ n → take c (take n xs) ≡ take c xs
take-take zero n xs h = refl
take-take (suc c) zero xs h = absurd (omega arith)
take-take (suc c) (suc n) [] h = refl
take-take (suc c) (suc n) (x ∷ xs) h = ap (◌∷◌ x) (take-take c n xs (omega arith))

Filled-used :
    (b : Block) (xs : List (List ℕ)) (n : ℕ)
    → Filled b [] xs (fill b xs) n
    → n * b.tuple_size ≤ b.size
Filled-used b xs n f = grind (
  arith,
  length-take n xs,
  f.count,
  f.same_size,
  ap (λ t. length (take n xs) * t) f.same_tuple,
  f.holds.used,
  f.holds.fits,
)

assembling-build : (b : Block) (s t : ℕ) → b.size ≡ s → assembling b s t ≡ build b s ((s - 4) / t)
unfolding assembling build
assembling-build b s t e = subst (λ s. assembling b s t ≡ build b s ((s - 4) / t)) e refl

drop_all {ℓ} : {A : Type ℓ} (xs : List A) → drop (length xs) xs ≡ []
drop_all [] = refl
drop_all (x ∷ xs) = drop_all xs

aligned : (k s t : ℕ) → 4 ≤ t → s ≡ suc k * t → ((s - 4) / t ≡ k) × (s / t ≡ suc k)
aligned k s t h e = (
  div-eq_of_lt-le {k = k} t (grind arith) (grind arith),
  div-eq_of_eq-mul_left {n = t} {m = s} {k = suc k} (omega arith) e,
)

module _ (b : Block) (xs : List (List ℕ)) (fresh : IsFresh b) (tuple : 0 < b.tuple_size)
    (widths : AllOfLength b.tuple_size xs) where
  abbrev room : ℕ
  room = min (length xs) (b.size / b.tuple_size)

  -- A fill stores the tuples that there is room for, and leaves the others.
  fill-room : Filled b [] xs (fill b xs) room
  fill-room = counted (fill-Filled b [] xs (IsFresh-Holds b fresh) widths)
    where
      counted : (n : ℕ) × Filled b [] xs (fill b xs) n → Filled b [] xs (fill b xs) room
      counted (n, f) =
          subst (Filled b [] xs (fill b xs))
            (filled_count n (length xs) b.size b.tuple_size f.count (Filled-used b xs n f)
              (elim f.stopped [ inl e ↦ inl e | inr l ↦ inr (grind (arith, l)) ]) tuple)
            f

  -- Filling a fresh page with tuples of its tuple size, which is not 0, and closing it by `build` with
  -- a count that leaves the tail free and is not above the number of tuples, makes an iterator give
  -- so many of the first tuples back, with fuel for one round more than the count.
  pub drain-fill :
      (c fuel junk : ℕ)
      → c ≤ length xs
      → c * b.tuple_size + 4 ≤ b.size
      → b.size < u32_mod
      → c < fuel
      → drain fuel (build (fill b xs).0 b.size c) (create_iterator junk) ≡ take c xs
  drain-fill c fuel junk n tail s32 f =
      subst
        (λ s. drain fuel (build (fill b xs).0 s c) (create_iterator junk) ≡ take c (take room xs))
        done.same_size
        (drain-build (fill b xs).0 (take room xs) c fuel junk done.holds
          (omega (arith, length-take room xs, within)) (rw (done.same_tuple, done.same_size) tail)
          (grind arith) (rw done.same_size s32) f)
      ∙ take-take c room xs within
    where
      done : Filled b [] xs (fill b xs) room
      done = fill-room

      within : c ≤ room
      within = grind (arith, le-div_iff_mul-le {k = b.tuple_size} {x = c} {y = b.size} tuple)

  -- `assembling` closes a page by the number of tuples that fit before its tail. When at least so
  -- many were stored, the page yields exactly those; the fill itself has consumed those that fit into
  -- the whole page.
  pub drain-assembling :
      (fuel junk : ℕ)
      → 4 ≤ b.size
      → (b.size - 4) / b.tuple_size ≤ length xs
      → b.size < u32_mod
      → (b.size - 4) / b.tuple_size < fuel
      → (drain fuel (assembling (fill b xs).0 b.size b.tuple_size) (create_iterator junk)
          ≡ take ((b.size - 4) / b.tuple_size) xs)
        × ((fill b xs).1 ≡ drop room xs)
  drain-assembling fuel junk tail n s32 f = (
    rw (assembling-build (fill b xs).0 b.size b.tuple_size fill-room.same_size) (
        drain-fill ((b.size - 4) / b.tuple_size) fuel junk n
          (grind (arith, div-mul-le_self (b.size - 4) b.tuple_size)) s32 f),
    fill-room.left,
  )

  -- Where the tuples fill the page to its end, `assembling` writes the count over the last of them:
  -- the fill takes every tuple, and the page yields all but the last.
  pub assembling_drops_last :
      (k junk : ℕ)
      → 4 ≤ b.tuple_size
      → b.size ≡ suc k * b.tuple_size
      → b.size < u32_mod
      → length xs ≡ suc k
      → ((fill b xs).1 ≡ [])
        × (drain (suc (suc k)) (assembling (fill b xs).0 b.size b.tuple_size) (create_iterator junk)
            ≡ take k xs)
  assembling_drops_last k junk wide e s32 n =
      let a = aligned k b.size b.tuple_size wide e in
      (
        fill-room.left ∙ ap (λ c. drop c xs) (omega (arith, a.1)) ∙ drop_all xs,
        (drain-assembling (suc (suc k)) junk (grind arith) (omega (arith, a.0)) s32
              (omega (arith, a.0))).0
            ∙ ap (λ c. take c xs) a.0,
      )
