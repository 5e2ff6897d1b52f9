-- ===== src/Page.antt =====
-- src/common/m_buffer.cpp: a page of BLOCK_SIZE bytes as the list of its tuples. `allocateTuple` is null
-- when the next tuple does not fit, and `assembling` writes the count into the last four bytes,
-- whatever was stored: that many slots from the start are what a reader gets.
use mosito.Base.{
  ℕ, zero, suc, ◌≤◌, ◌<◌, ◌-◌, ◌/◌, ◌≡◌, refl, ap, List, [], ◌∷◌, ◌++◌, length, take, drop, arith,
}
use native.Mathlib.Nat.{div-mul-le_self, le-div_iff_mul-le}
use mosito.Queue.{block_size}

-- The tuples that fit into a page, and those that fit before the count.
abbrev pub room : ℕ → ℕ
room tuple_size = block_size / tuple_size

abbrev pub counted : ℕ → ℕ
counted tuple_size = (block_size - 4) / tuple_size

-- What a reader gets after `assembling` of a block into which `stored` was stored after a reset; `old` is
-- what the slots held before. When the last slot reaches into the count it is not among them.
abbrev pub assembled {ℓ} : {T : Type ℓ} → ℕ → List T → List T → List T
assembled tuple_size stored old = take (counted tuple_size) (stored ++ drop (length stored) old)

pub room_some : (tuple_size : ℕ) → 0 < tuple_size → tuple_size ≤ block_size → 0 < room tuple_size
room_some t h l = (le-div_iff_mul-le {x = 1} {y = block_size} h).1 (omega arith)

pub counted-room : (tuple_size : ℕ) → 0 < tuple_size → counted tuple_size ≤ room tuple_size
counted-room t h =
    (le-div_iff_mul-le {x = counted t} {y = block_size} h).1
      (omega (arith, div-mul-le_self (block_size - 4) t))

take-append {ℓ} :
    {T : Type ℓ} (n : ℕ) (xs ys : List T) → n ≤ length xs → take n (xs ++ ys) ≡ take n xs
take-append zero xs ys h = refl
take-append (suc n) [] ys h = absurd (omega arith)
take-append (suc n) (x ∷ xs) ys h = ap (◌∷◌ x) (take-append n xs ys (omega arith))

-- A page in which at least the counted tuples were stored.
pub assembled_full {ℓ} :
    {T : Type ℓ} (tuple_size : ℕ) (stored old : List T)
    → counted tuple_size ≤ length stored
    → assembled tuple_size stored old ≡ take (counted tuple_size) stored
assembled_full t stored old h = take-append (counted t) stored (drop (length stored) old) h

taken {ℓ} :
    {T : Type ℓ} (n : ℕ) (xs old : List T)
    → length old ≡ n
    → length (take n (xs ++ drop (length xs) old)) ≡ n
taken zero xs old h = refl
taken (suc n) [] [] h = absurd (omega (arith, h))
taken (suc n) (x ∷ xs) [] h = absurd (omega (arith, h))
taken (suc n) [] (o ∷ os) h = ap suc (taken n [] os (omega (arith, h)))
taken (suc n) (x ∷ xs) (o ∷ os) h = ap suc (taken n xs os (omega (arith, h)))

pub length-assembled {ℓ} :
    {T : Type ℓ} (tuple_size : ℕ) (stored old : List T)
    → length old ≡ counted tuple_size
    → length (assembled tuple_size stored old) ≡ counted tuple_size
length-assembled t stored old h = taken (counted t) stored old h
