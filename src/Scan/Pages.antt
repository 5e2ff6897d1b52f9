-- ===== src/Scan/Pages.antt =====
-- src/physical/m_scan.cpp: a scan gives out the file, from the disk or from the memory store.
use mosito.Base.{
  ℕ, zero, suc, ◌+◌, ◌<◌, ◌≡◌, refl, ap, ap₂, sym, ◌∙◌, subst, Bool, true, false, none, some, List,
  [], ◌∷◌, ◌++◌, map, length, drop, All, arith, Bool-cases, Option-cases, inl, inr, ◌⊎◌,
}
use mosito.Buffer.{Allocator, Block, store_block}
use mosito.Queue.{block_size}
use mosito.Queue.Fifo.{page_copy, copy_whole}
use mosito.Scan.{MemoryStore, Scan, read_blocks, entry, prelude, blocks_of, execute, gather}
use mosito.Scan.Reads.{IsPaged, take_all, read_blocks-IsPaged}

abbrev mems : List Block → List (List ℕ)
mems bs = map (λ b. b.mem) bs

length-mems : (bs : List Block) → length (mems bs) ≡ length bs
length-mems [] = refl
length-mems (b ∷ bs) = ap suc (length-mems bs)

-- The test of names tells equality.
pub record IsSame {ℓ} {Name : Type ℓ} (same : Name → Name → Bool) : Type ℓ where
  pub sound : (x y : Name) → same x y ≡ true → x ≡ y
  pub itself : (x : Name) → same x x ≡ true

plus_one : (n : ℕ) → n + 1 ≡ suc n
plus_one n = omega arith

module _ {ℓ} {Name : Type ℓ} (same : Name → Name → Bool) (names : IsSame same) where
  -- What the store has of a file are pages of the file.
  abbrev pub IsStored : (Name → List ℕ) → MemoryStore same → Type ℓ
  IsStored disk store =
      (name : Name) (blocks : List Block)
      → entry same store.blocks name ≡ some blocks
      → IsPaged (disk name) (mems blocks)

  entry-new :
      (es : List (Name × List Block)) (name : Name) (bs : List Block) (other : Name)
      (found : List Block)
      → entry same (es ++ (name, bs) ∷ []) other ≡ some found
      → ((entry same es other ≡ some found) ⊎ ((name ≡ other) × (bs ≡ found)))
  entry-new [] name bs other found e = elim (Bool-cases (same name other)) [
    | inl h ↦ inr (names.sound name other h, ground (arith, e, h))
    | inr h ↦ absurd (ground (arith, e, h))
  ]
  entry-new (d ∷ es) name bs other found e = elim (Bool-cases (same d.0 other)) [
    | inl h ↦ inl (rw h (ground (arith, e, h)))
    | inr h ↦ rw h (entry-new es name bs other found (ground (arith, e, h)))
  ]

  entry-there :
      (es : List (Name × List Block)) (name : Name) (bs : List Block)
      → entry same es name ≡ none
      → entry same (es ++ (name, bs) ∷ []) name ≡ some bs
  entry-there [] name bs e = rw (names.itself name) refl
  entry-there (d ∷ es) name bs e = elim (Bool-cases (same d.0 name)) [
    | inl h ↦ absurd (ground (arith, e, h))
    | inr h ↦ rw h (entry-there es name bs (ground (arith, e, h)))
  ]

  module _ (a : Allocator) (junk : ℕ) (disk : Name → List ℕ) where
    prelude_cached :
        (store : MemoryStore same) (name : Name) (bs : List Block)
        → entry same store.blocks name ≡ some bs
        → (prelude same a junk disk store name).0 ≡ store
    unfolding prelude
    prelude_cached store name bs e = rw (e, prelude) refl

    prelude_reads :
        (store : MemoryStore same) (name : Name)
        → entry same store.blocks name ≡ none
        → (prelude same a junk disk store name).0 ≡ record {
          blocks = store.blocks ++ (name, read_blocks a junk (length (disk name)) (disk name)) ∷ [];
        }
    unfolding prelude
    prelude_reads store name e = rw (e, prelude) refl

    -- The store keeps pages of the files, and has those of the file that is scanned.
    prelude-IsStored :
        (store : MemoryStore same) (name : Name)
        → IsStored disk store
        → IsStored disk (prelude same a junk disk store name).0
          × ((bs : List Block) × (entry same (prelude same a junk disk store name).0.blocks name
                ≡ some bs))
    prelude-IsStored store name h = elim (Option-cases (entry same store.blocks name)) [
      | inr (bs, e) ↦ rw (prelude_cached store name bs e) (h, (bs, e))
      | inl e ↦
          let bs = read_blocks a junk (length (disk name)) (disk name) in
          rw (prelude_reads store name e) (
            (λ other found f. elim (entry-new store.blocks name bs other found f) [
              | inl g ↦ h other found g
              | inr (n, s) ↦
                  subst (λ o. IsPaged (disk o) (mems found)) n
                    (subst (λ b. IsPaged (disk name) (mems b)) s
                      (read_blocks-IsPaged a junk (length (disk name)) (disk name) (omega arith)))
            ]),
            (bs, entry-there store.blocks name bs e),
          )
    ]

  execute_more :
      (store : MemoryStore same) (scan : Scan same) (block b : Block) (rest : List Block)
      → drop scan.cursor (blocks_of same store scan.filename) ≡ b ∷ rest
      → execute same store scan block
        ≡ (true, store_block block b.mem block_size, record scan { cursor = scan.cursor + 1 })
  unfolding execute
  execute_more store scan block b rest e = rw (e, execute) refl

  execute_done :
      (store : MemoryStore same) (scan : Scan same) (block : Block)
      → drop scan.cursor (blocks_of same store scan.filename) ≡ []
      → execute same store scan block ≡ (false, block, scan)
  unfolding execute
  execute_done store scan block e = rw (e, execute) refl

  drop-suc {κ} :
      {A : Type κ} (n : ℕ) (xs : List A) (x : A) (rest : List A)
      → drop n xs ≡ x ∷ rest
      → drop (suc n) xs ≡ rest
  drop-suc zero [] x rest e = ap (λ zs. drop 1 zs) e
  drop-suc zero (y ∷ ys) x rest e = ap (λ zs. drop 1 zs) e
  drop-suc (suc n) [] x rest e = ap (λ zs. drop 1 zs) e
  drop-suc (suc n) (y ∷ ys) x rest e = drop-suc n ys x rest e

  drop_next {κ} :
      {A : Type κ} (n : ℕ) (xs : List A) (x : A) (rest : List A)
      → drop n xs ≡ x ∷ rest
      → drop (n + 1) xs ≡ rest
  drop_next n xs x rest e = ap (λ k. drop k xs) (plus_one n) ∙ drop-suc n xs x rest e

  gather_of :
      (fuel : ℕ) (store : MemoryStore same) (scan : Scan same) (block : Block)
      (r : Bool × Block × Scan same)
      → execute same store scan block ≡ r
      → gather same store (suc fuel) scan block
        ≡ (elim (r.0) [ false ↦ [] | true ↦ r.1.mem ∷ gather same store fuel r.2 r.1 ])
  unfolding gather
  gather_of fuel store scan block r e =
      ap (λ r. elim (r.0) [ false ↦ [] | true ↦ r.1.mem ∷ gather same store fuel r.2 r.1 ]) e

  gather-mems :
      (fuel : ℕ) (store : MemoryStore same) (scan : Scan same) (block : Block) (left : List Block)
      → drop scan.cursor (blocks_of same store scan.filename) ≡ left
      → All (λ p. length p ≡ block_size) (mems left)
      → length block.mem ≡ block_size
      → length left < fuel
      → gather same store fuel scan block ≡ mems left
  unfolding gather
  gather-mems zero store scan block left e w l f = absurd (omega arith)
  gather-mems (suc fuel) store scan block [] e w l f =
      gather_of fuel store scan block _ (execute_done store scan block e)
  gather-mems (suc fuel) store scan block (b ∷ left) e w l f =
      gather_of fuel store scan block _ (execute_more store scan block b left e)
      ∙ ap₂ (◌∷◌)
          (page_copy block b.mem block_size l (omega (arith, w.0)) ∙ take_all block_size b.mem w.0)
          (gather-mems fuel store (record scan { cursor = scan.cursor + 1 })
            (store_block block b.mem block_size) left
            (drop_next scan.cursor (blocks_of same store scan.filename) b left e) w.1
            (copy_whole block b.mem block_size l (omega (arith, w.0))) (omega arith))

  blocks_of_there :
      (store : MemoryStore same) (name : Name) (bs : List Block)
      → entry same store.blocks name ≡ some bs
      → blocks_of same store name ≡ bs
  unfolding blocks_of
  blocks_of_there store name bs e = rw (e, blocks_of) refl

  -- A scan of any file, from a store that has pages of files only: `prelude` leaves such a store, and
  -- `execute` then gives the file in whole pages, and no more of them than it needs, before it answers
  -- false. The parent's block is a page; the files have not changed since they were read.
  pub scan-IsPaged :
      (a : Allocator) (junk : ℕ) (disk : Name → List ℕ) (store : MemoryStore same) (name : Name)
      (block : Block) (fuel : ℕ)
      → IsStored disk store
      → length block.mem ≡ block_size
      → length (disk name) < fuel
      → IsStored disk (prelude same a junk disk store name).0
        × IsPaged (disk name) (
            gather same
              (prelude same a junk disk store name).0
              fuel
              (prelude same a junk disk store name).1
              block)
  unfolding prelude
  scan-IsPaged a junk disk store name block fuel h l f =
      let (kept, (bs, e)) = prelude-IsStored a junk disk store name h in
      let paged = kept name bs e in
      let opened = (prelude same a junk disk store name).0 in
      (
        kept,
        subst (IsPaged (disk name))
            (sym (
              gather-mems fuel opened (record { filename = name; cursor = 0 }) block bs
                (blocks_of_there opened name bs e) paged.whole l
                (omega (arith, paged.needed, length-mems bs, f))))
            paged,
      )
