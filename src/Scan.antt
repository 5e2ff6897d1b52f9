-- ===== src/Scan.antt =====
-- src/physical/m_scan.cpp and src/storage/m_memory_store.h: a scan reads a file into the blocks of the
-- memory store, when it is not there yet, and gives them out one by one. `disk` is what the files
-- hold; a file name is any value with a test for equality.
pub mod Reads
pub mod Pages
use mosito.Base.{
  ℕ, zero, suc, ◌+◌, Bool, true, false, Option, none, some, List, [], ◌∷◌, ◌++◌, length, take, drop,
  min, ◌==◌, if◌then◌else◌,
}
use mosito.Buffer.{Allocator, Block, create, store_block}
use mosito.Queue.{block_size}

-- The blocks that `fread` fills from what is left of the file. `junk` is the tuple size, which the
-- constructor does not set.
unfoldable pub read_blocks : Allocator → ℕ → ℕ → List ℕ → List Block
unfolding create store_block
read_blocks a junk zero rest = []
read_blocks a junk (suc fuel) rest =
    let size = min block_size (length rest) in
    let blocks = read_blocks a junk fuel (drop block_size rest) in
    if size == 0 then [] else store_block (create a block_size junk) (take size rest) size ∷ blocks

module _ {ℓ} {Name : Type ℓ} (same : Name → Name → Bool) where
  pub record MemoryStore : Type ℓ where
    pub blocks : List (Name × List Block)

  -- `blocks_.find`.
  abbrev pub entry : List (Name × List Block) → Name → Option (List Block)
  entry [] name = none
  entry (e ∷ es) name = if same e.0 name then some e.1 else entry es name

  pub record Scan : Type ℓ where
    pub filename : Name
    pub cursor : ℕ

  unfoldable pub prelude : Allocator → ℕ → (Name → List ℕ) → MemoryStore → Name → MemoryStore × Scan
  unfolding read_blocks
  prelude a junk disk store name = (
    elim (entry store.blocks name) [
      | some blocks ↦ store
      | none ↦ record {
        blocks = store.blocks ++ (name, read_blocks a junk (length (disk name)) (disk name)) ∷ [];
      }
    ],
    record { filename = name; cursor = 0 },
  )

  -- `blocks_[filename]`, which is empty for a name that is not there.
  unfoldable pub blocks_of : MemoryStore → Name → List Block
  blocks_of store name = elim (entry store.blocks name) [ none ↦ [] | some blocks ↦ blocks ]

  unfoldable pub execute : MemoryStore → Scan → Block → Bool × Block × Scan
  unfolding blocks_of store_block
  execute store scan block = elim (drop scan.cursor (blocks_of store scan.filename)) [
    | [] ↦ (false, block, scan)
    | b ∷ rest ↦
        (true, store_block block b.mem block_size, record scan { cursor = scan.cursor + 1 })
  ]

  -- `while (execute(block))`: the pages that a parent sees.
  unfoldable pub gather : MemoryStore → ℕ → Scan → Block → List (List ℕ)
  unfolding execute
  gather store zero scan block = []
  gather store (suc fuel) scan block =
      let r = execute store scan block in
      elim (r.0) [ false ↦ [] | true ↦ r.1.mem ∷ gather store fuel r.2 r.1 ]
