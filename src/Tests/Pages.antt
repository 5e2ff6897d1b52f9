-- ===== src/Tests/Pages.antt =====
-- Pages of two tuples of eight bytes.
use mosito.Base.{ℕ, ◌/◌, ◌-◌, ◌≡◌, refl, some, List, [], ◌∷◌, ◌++◌, length, take, drop, min, arith}
use mosito.Buffer.{
  Block, create, build, assembling, fill, drain, create_iterator, store_all, compare_from, range,
}
use mosito.Buffer.Layout.{Holds}
use mosito.Buffer.Roundtrip.{IsFresh, drain-fill, drain-assembling, assembling_drops_last}
use mosito.Buffer.Flex.{Stored, store_all-Stored}
use mosito.Buffer.Range.{Placed, compare_from-Placed}
use mosito.Tests.Memory.{plain}

abbrev page : Block
page = create plain 20 8

abbrev page_of_16 : Block
page_of_16 = create plain 16 8

abbrev tuple_a : List ℕ
tuple_a = 1 ∷ 2 ∷ 3 ∷ 4 ∷ 5 ∷ 6 ∷ 7 ∷ 8 ∷ []

abbrev tuple_b : List ℕ
tuple_b = 9 ∷ 8 ∷ 7 ∷ 6 ∷ 5 ∷ 4 ∷ 3 ∷ 2 ∷ []

abbrev two_tuples : List (List ℕ)
two_tuples = tuple_a ∷ tuple_b ∷ []

page-IsFresh : IsFresh page
unfolding create
page-IsFresh = record { at_start = refl; allocated = omega arith }

page_of_16-IsFresh : IsFresh page_of_16
unfolding create
page_of_16-IsFresh = record { at_start = refl; allocated = omega arith }

drain-fill_example :
    drain 3 (build (fill page two_tuples).0 page.size 2) (create_iterator 7) ≡ take 2 two_tuples
unfolding create
drain-fill_example =
    drain-fill page two_tuples page-IsFresh (omega arith) (refl, (refl, tt)) 2 3 7 (omega arith)
      (omega arith) (omega arith) (omega arith)

drain-assembling_example :
    (drain 3 (assembling (fill page two_tuples).0 page.size page.tuple_size) (create_iterator 7)
      ≡ take ((page.size - 4) / page.tuple_size) two_tuples)
    × ((fill page two_tuples).1
        ≡ drop (min (length two_tuples) (page.size / page.tuple_size)) two_tuples)
unfolding create
drain-assembling_example =
    drain-assembling page two_tuples page-IsFresh (omega arith) (refl, (refl, tt)) 3 7 (omega arith)
      (omega arith) (omega arith) (omega arith)

assembling_drops_last_example :
    ((fill page_of_16 two_tuples).1 ≡ [])
    × (drain 3
          (assembling (fill page_of_16 two_tuples).0 page_of_16.size page_of_16.tuple_size)
          (create_iterator 7)
        ≡ take 1 two_tuples)
unfolding create
assembling_drops_last_example =
    assembling_drops_last page_of_16 two_tuples page_of_16-IsFresh (omega arith) (refl, (refl, tt))
      1 7 (omega arith) refl (omega arith) refl

-- A growing block of four bytes has no room for a tuple.
abbrev small_block : Block
small_block = create plain 4 8

small_block-Holds : Holds small_block []
unfolding create
small_block-Holds = record {
  fits = omega arith;
  allocated = omega arith;
  used = refl;
  tuples = refl;
}

store_all-Stored_example :
    Stored plain small_block ([] ++ two_tuples) (store_all plain 20 small_block two_tuples)
unfolding create
store_all-Stored_example =
    store_all-Stored plain 20 small_block [] two_tuples small_block-Holds (refl, (refl, tt))
      (omega arith) (omega arith) (omega arith)

compare_from-Placed_example :
    Placed 25 (10 ∷ 20 ∷ 30 ∷ []) 0 (compare_from 5 25 0 (10 ∷ 20 ∷ 30 ∷ []))
compare_from-Placed_example = compare_from-Placed 5 25 0 (10 ∷ 20 ∷ 30 ∷ []) (omega arith)

-- A block across the bound 10 falls into the next range.
straddling_block : compare_from 5 25 0 (10 ∷ 20 ∷ 30 ∷ []) ≡ some (range 2)
unfolding compare_from
straddling_block = refl
