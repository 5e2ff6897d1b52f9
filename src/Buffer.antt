-- ===== src/Buffer.antt =====
-- src/common/m_buffer.h and m_buffer.cpp: tuple blocks, growing blocks and the iterator over them.
-- A block is its allocation with `free_ - start_` as an offset. Offsets stand for pointers into the
-- allocation, and `none` for the null pointer.
pub mod Layout
pub mod Page
pub mod Roundtrip
pub mod Flex
pub mod Range
use mosito.Base.{
  ℕ, zero, suc, ◌+◌, ◌-◌, ◌*◌, ◌/◌, ◌%◌, ◌≤◌, ◌≡◌, Bool, true, false, ◌&&◌, Option, none, some,
  List, [], ◌∷◌, length, take, ltb, leb, ◌==◌, if◌then◌else◌,
}
use mosito.Base.Bytes.{write_bytes, read_bytes, get_u32, get_u64, set_u32}

-- 2 ^ 32, the modulus of `unsigned`.
abbrev pub u32_mod : ℕ
u32_mod = 4294967296

-- What the C library promises of its allocator: blocks of the size asked for, and `realloc` keeps
-- the bytes that fit into the new allocation.
pub record Allocator : Type 0 where
  pub malloc : ℕ → List ℕ
  pub realloc : List ℕ → ℕ → List ℕ
  pub length-malloc : (n : ℕ) → length (malloc n) ≡ n
  pub length-realloc : (mem : List ℕ) (n : ℕ) → length (realloc mem n) ≡ n
  pub realloc-keeps :
      (mem : List ℕ) (n o k : ℕ)
      → o + k ≤ length mem
      → o + k ≤ n
      → read_bytes (realloc mem n) o k ≡ read_bytes mem o k

pub record Block : Type 0 where
  pub mem : List ℕ
  pub free : ℕ
  pub size : ℕ
  pub tuple_size : ℕ

-- `Block(size, tuple_size)` over `Buffer(size)`.
unfoldable pub create : Allocator → ℕ → ℕ → Block
create a size tuple_size = record {
  mem = a.malloc size;
  free = 0;
  size = size;
  tuple_size = tuple_size;
}

unfoldable pub get_actual_size : Block → ℕ
get_actual_size b = b.tuple_size

unfoldable pub allocate_tuple : Block → Option ℕ
allocate_tuple b = if leb (b.free + b.tuple_size) b.size then some b.free else none

-- `storeTuple(desc, src)`; the source is the bytes that `src` points to.
unfoldable pub store_tuple : Block → ℕ → List ℕ → Block
store_tuple b desc src = record b {
  mem = write_bytes b.mem desc (take b.tuple_size src);
  free = b.free + b.tuple_size;
}

unfoldable pub update_free : Block → Block
update_free b = record b { free = b.free + b.tuple_size }

unfoldable pub build : Block → ℕ → ℕ → Block
build b size number = record b { mem = set_u32 b.mem (size - 4) number }

unfoldable pub empty : Block → Bool
empty b = b.free == 0

unfoldable pub tag : Block → ℕ → ℕ → Block
tag b size tg = record b { mem = set_u32 b.mem (size - 8) tg }

unfoldable pub get_size : Block → ℕ
get_size b = get_u32 b.mem (b.size - 4)

unfoldable pub store_block : Block → List ℕ → ℕ → Block
store_block b src size = record b { mem = write_bytes b.mem 0 (take size src); free = size }

unfoldable pub reset : Block → Block
reset b = record b { free = 0 }

unfoldable pub assembling : Block → ℕ → ℕ → Block
assembling b size tuple_size = record b {
  size = size;
  mem = set_u32 b.mem (size - 4) ((size - 4) / tuple_size);
}

-- What `Block::compare_start_end` answers: the index of a range, or -1.
pub data Placement : Type 0 where
  range : ℕ → Placement
  straddles : Placement

-- Its loop over the bounds; `none` is the uninitialised `ret` that is returned when no test passed.
unfoldable pub compare_from : ℕ → ℕ → ℕ → List ℕ → Option Placement
compare_from start last i [] = none
compare_from start last i (b ∷ bs) =
    let rest = compare_from start last (i + 1) bs in
    if ltb start b && ltb last b
    then some (range i)
    else (if ltb b last then rest else (if ltb b start && ltb last b then some straddles else rest))

-- The keys are the 8-byte words at offset 8 of the first and of the last tuple.
unfoldable pub compare_start_end : Block → List ℕ → Option Placement
unfolding compare_from
compare_start_end b bounds =
    compare_from (get_u64 b.mem 8)
      (get_u64 b.mem ((b.tuple_size * ((get_size b + u32_mod - 1) % u32_mod) + 8) % u32_mod)) 0
      bounds

-- BufferIterator, beside the block that it reads.
pub record Iterator : Type 0 where
  pub current : ℕ
  pub fake_count : ℕ

-- The constructor leaves `fake_count_` as it finds it.
unfoldable pub create_iterator : ℕ → Iterator
create_iterator junk = record { current = 0; fake_count = junk }

unfoldable pub get_next : Block → Iterator → Option ℕ × Iterator
get_next b it = if it.current == get_size b then (none, record it { fake_count = 0 }) else (
  some (it.current * get_actual_size b % u32_mod),
  record { current = (it.current + 1) % u32_mod; fake_count = 0 },
)

unfoldable pub get_current : Block → Iterator → Option ℕ
get_current b it =
    if it.current == get_size b then none else some (it.current * get_actual_size b % u32_mod)

unfoldable pub increase_cur : Iterator → Iterator
increase_cur it = record it { current = (it.current + 1) % u32_mod }

unfoldable pub get_next_fake : Block → Iterator → ℕ × Iterator
get_next_fake b it =
    let count = (it.fake_count + 1) % u32_mod in
    ((it.current + count) % u32_mod * get_actual_size b % u32_mod, record it { fake_count = count })

unfoldable pub reset_iterator : Iterator → Iterator
reset_iterator it = record it { current = 0 }

-- `while ((tuple = it->getNext()) != 0)`, with the bytes of each tuple. The fuel bounds the rounds.
unfoldable pub drain : ℕ → Block → Iterator → List (List ℕ)
drain zero b it = []
drain (suc fuel) b it = elim (get_next b it).0 [
  | none ↦ []
  | some p ↦ read_bytes b.mem p b.tuple_size ∷ drain fuel b (get_next b it).1
]

-- `while ((desc = block->allocateTuple()) != 0) block->storeTuple(desc, src)` over the tuples that
-- are there to be stored; the second part is what has found no room.
unfoldable pub fill : Block → List (List ℕ) → Block × List (List ℕ)
unfolding allocate_tuple store_tuple
fill b [] = (b, [])
fill b (x ∷ xs) = elim (allocate_tuple b) [
  | none ↦ (b, x ∷ xs)
  | some desc ↦ fill (store_tuple b desc x) xs
]

-- FlexBlock. `size_ * increasing_factor_` at the default factor 2, cut to an `unsigned`. That `realloc`
-- fails is not in the model; the code does not test for it either.
module _ (a : Allocator) where
  unfoldable pub double_buffer : Block → Block
  double_buffer b =
      let size = b.size * 2 % u32_mod in record b { size = size; mem = a.realloc b.mem size }

  -- The loop of `storeTupleOK`; `none` says that the fuel ran out.
  unfoldable pub store_tuple_ok : ℕ → Block → List ℕ → Option Block
  unfolding allocate_tuple store_tuple
  store_tuple_ok zero b tuple = none
  store_tuple_ok (suc fuel) b tuple = elim (allocate_tuple b) [
    | none ↦ store_tuple_ok fuel (double_buffer b) tuple
    | some desc ↦ some (store_tuple b desc tuple)
  ]

  -- A gather loop: every tuple goes through `storeTupleOK`.
  unfoldable pub store_all : ℕ → Block → List (List ℕ) → Option Block
  store_all fuel b [] = some b
  store_all fuel b (x ∷ xs) = elim (store_tuple_ok fuel b x) [
    | none ↦ none
    | some b' ↦ store_all fuel b' xs
  ]

-- `FlexBlock::reset`, with HEAP_SORT_BUFFER_INIT_SIZE.
abbrev pub heap_sort_buffer_init_size : ℕ
heap_sort_buffer_init_size = 1024

unfoldable pub reset_flex : Block → Block
reset_flex b = record b { size = heap_sort_buffer_init_size; free = 0 }

-- `PersistFlexBlock::persist`: what is written to the file.
unfoldable pub persist : Block → List ℕ
persist b = read_bytes b.mem 0 b.free
