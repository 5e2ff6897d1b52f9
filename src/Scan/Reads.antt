-- ===== src/Scan/Reads.antt =====
-- src/physical/m_scan.cpp: the blocks that are read hold the file.
use mosito.Base.{
  concat, ℕ, zero, suc, ◌+◌, ◌*◌, ◌≤◌, ◌<◌, ◌≡◌, refl, ap, sym, subst, ◌∙◌, true, false, List, [],
  ◌∷◌, ◌++◌, map, length, take, drop, min, leb, leb→le, ◌==◌, All, arith, Bool-cases, inl, inr,
  length-take, length-drop, take-append-drop,
}
use mosito.Base.Bytes.{read_bytes, write_bytes, length-write_bytes, read-write_self}
use mosito.Buffer.{Allocator, create, store_block}
use mosito.Queue.{block_size}
use mosito.Scan.{read_blocks}

-- Pages that hold a file: all of BLOCK_SIZE, no more of them than it needs, and it is what they begin
-- with.
pub record IsPaged (file : List ℕ) (pages : List (List ℕ)) : Type 0 where
  pub whole : All (λ p. length p ≡ block_size) pages
  pub enough : length file ≤ length pages * block_size
  pub needed : length pages * block_size < length file + block_size
  pub content : take (length file) (concat pages) ≡ file

take-append_more :
    (m : ℕ) (xs ys : List ℕ) (n : ℕ) → m ≡ length xs + n → take m (xs ++ ys) ≡ xs ++ take n ys
take-append_more m [] ys n e = ap (λ k. take k ys) (omega arith)
take-append_more zero (x ∷ xs) ys n e = absurd (omega arith)
take-append_more (suc m) (x ∷ xs) ys n e = ap (◌∷◌ x) (take-append_more m xs ys n (omega arith))

pub take_all : (n : ℕ) (xs : List ℕ) → length xs ≡ n → take n xs ≡ xs
take_all zero [] e = refl
take_all zero (x ∷ xs) e = absurd (omega arith)
take_all (suc n) [] e = absurd (omega arith)
take_all (suc n) (x ∷ xs) e = ap (◌∷◌ x) (take_all n xs (omega arith))

take-append_less : (n : ℕ) (xs ys : List ℕ) → n ≤ length xs → take n (xs ++ ys) ≡ take n xs
take-append_less zero xs ys l = refl
take-append_less (suc n) [] ys l = absurd (omega arith)
take-append_less (suc n) (x ∷ xs) ys l = ap (◌∷◌ x) (take-append_less n xs ys (omega arith))

leb_gt : (m n : ℕ) → leb m n ≡ false → n < m
leb_gt m n h = ground arith

none-IsPaged : IsPaged [] []
none-IsPaged = record { whole = tt; enough = omega arith; needed = omega arith; content = refl }

-- A page before those of the rest of the file.
more-IsPaged :
    (file page : List ℕ) (pages : List (List ℕ))
    → 0 < length file
    → length page ≡ block_size
    → take (min block_size (length file)) page ≡ take (min block_size (length file)) file
    → IsPaged (drop block_size file) pages
    → IsPaged file (page ∷ pages)
more-IsPaged file page pages l e f r =
    let n = length-drop block_size file in
    record {
      whole = (e, r.whole);
      enough = omega (arith, r.enough, n);
      needed = omega (arith, r.needed, n);
      content = elim (Bool-cases (leb (length file) block_size)) [
        | inl h ↦
            let l = leb→le _ _ h in
            let m : min block_size (length file) ≡ length file = omega (arith, l) in
            take-append_less (length file) page (concat pages) (omega (arith, e, l))
            ∙ subst (λ k. take k page ≡ take k file) m f
            ∙ take_all (length file) file refl
        | inr h ↦
            let l = leb_gt _ _ h in
            let m : min block_size (length file) ≡ block_size = omega (arith, l) in
            let first : page ≡ take block_size file =
              sym (take_all block_size page e) ∙ subst (λ k. take k page ≡ take k file) m f in
            take-append_more (length file) page (concat pages) (length (drop block_size file))
              (omega (arith, e, n, l))
            ∙ ap (λ ys. page ++ ys) r.content
            ∙ ap (λ ys. ys ++ drop block_size file) first
            ∙ take-append-drop block_size file
      ];
    }

module _ (a : Allocator) (junk : ℕ) where
  abbrev pub read : ℕ → List ℕ → List (List ℕ)
  read fuel rest = map (λ b. b.mem) (read_blocks a junk fuel rest)

  read_more :
      (fuel : ℕ) (rest : List ℕ)
      → (min block_size (length rest) == 0) ≡ false
      → read_blocks a junk (suc fuel) rest
        ≡ store_block
            (create a block_size junk)
            (take (min block_size (length rest)) rest)
            (min block_size (length rest))
          ∷ read_blocks a junk fuel (drop block_size rest)
  unfolding read_blocks
  read_more fuel rest e = rw (e, read_blocks) refl

  read_done :
      (fuel : ℕ) (rest : List ℕ)
      → (min block_size (length rest) == 0) ≡ true
      → read_blocks a junk (suc fuel) rest ≡ []
  unfolding read_blocks
  read_done fuel rest e = rw (e, read_blocks) refl

  -- One block: it is a page, and begins with what was read.
  first_block :
      (size : ℕ) (src : List ℕ)
      → length src ≡ size
      → size ≤ block_size
      → (length (store_block (create a block_size junk) src size).mem ≡ block_size)
        × (take size (store_block (create a block_size junk) src size).mem ≡ src)
  unfolding store_block create read_bytes
  first_block size src e l = (
    length-write_bytes (a.malloc block_size) 0 (take size src) ∙ a.length-malloc block_size,
    rw (take_all size src e) (
        ap (λ k. take k (write_bytes (a.malloc block_size) 0 src)) (sym e)
        ∙ read-write_self (a.malloc block_size) 0 src (omega (arith, a.length-malloc block_size))),
  )

  pub read_blocks-IsPaged :
      (fuel : ℕ) (rest : List ℕ) → length rest ≤ fuel → IsPaged rest (read fuel rest)
  unfolding read_blocks
  read_blocks-IsPaged zero [] l = none-IsPaged
  read_blocks-IsPaged zero (x ∷ rest) l = absurd (omega arith)
  read_blocks-IsPaged (suc fuel) rest l = elim (Bool-cases (min block_size (length rest) == 0)) [
    | inl e ↦
        rw (read_done fuel rest e)
          (subst (λ file. IsPaged file []) (sym (take_zero rest (ground arith))) none-IsPaged)
    | inr e ↦
        let size = min block_size (length rest) in
        let b =
          first_block size (take size rest) (omega (arith, length-take size rest)) (omega arith) in
        rw (read_more fuel rest e) (
          more-IsPaged rest _ _ (ground arith) b.0 b.1 (
            read_blocks-IsPaged fuel (drop block_size rest)
              (omega (arith, length-drop block_size rest, some_left rest e))))
  ]
    where
      some_left : (rest : List ℕ) → (min block_size (length rest) == 0) ≡ false → 0 < length rest
      some_left rest e = ground arith

      take_zero : (xs : List ℕ) → length xs ≡ 0 → xs ≡ []
      take_zero [] e = refl
      take_zero (x ∷ xs) e = absurd (omega arith)
