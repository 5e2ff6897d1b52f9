-- ===== src/Tests/Sorting.antt =====
-- A schema of an int and a long, and heaps under its comparator.
use mosito.Base.{ℕ, ◌<◌, ◌≡◌, refl, Bool, true, List, [], ◌∷◌, length, take, get_or, arith}
use mosito.Base.Bytes.{get_u32}
use mosito.Heap.{heap_sort, heap_sort_from, heap_again, heap_again_from}
use mosito.Heap.Sift.{IsOrder, HeapFrom}
use mosito.Heap.Same.{count}
use mosito.Heap.Again.{heap_sort-heap}
use mosito.Schema.{
  ReturnType, t_int, t_long, Schema, create_schema, SortOrderRef, ascending, descending,
  integer_type, compare, get_columns, get_bytes, get_addr, get_data_type,
}
use mosito.Schema.Keys.{lex_leb, keys, compare-lex}
use mosito.Schema.Order.{compare-IsOrder}
use mosito.Schema.Offsets.{widths, type_of, create_schema_lem}

abbrev int_and_long : List ReturnType
int_and_long = t_int ∷ t_long ∷ []

abbrev schema : Schema
schema = create_schema 0 int_and_long

abbrev by_both : List SortOrderRef
by_both =
    record { offset = 0; direction = ascending }
    ∷ record { offset = 1; direction = descending }
    ∷ []

-- -1 and 7; 2 and 9; 2 and 8.
abbrev row_a : List ℕ
row_a = 255 ∷ 255 ∷ 255 ∷ 255 ∷ 7 ∷ 0 ∷ 0 ∷ 0 ∷ 0 ∷ 0 ∷ 0 ∷ 0 ∷ []

abbrev row_b : List ℕ
row_b = 2 ∷ 0 ∷ 0 ∷ 0 ∷ 9 ∷ 0 ∷ 0 ∷ 0 ∷ 0 ∷ 0 ∷ 0 ∷ 0 ∷ []

abbrev row_c : List ℕ
row_c = 2 ∷ 0 ∷ 0 ∷ 0 ∷ 8 ∷ 0 ∷ 0 ∷ 0 ∷ 0 ∷ 0 ∷ 0 ∷ 0 ∷ []

abbrev less_or_equal : List ℕ → List ℕ → Bool
less_or_equal = compare integer_type 0 3 schema by_both

compare-lex_example :
    compare integer_type 0 3 schema by_both row_a row_b
    ≡ lex_leb
        (keys integer_type 0 schema 0 by_both row_a)
        (keys integer_type 0 schema 0 by_both row_b)
compare-lex_example = compare-lex integer_type 0 schema by_both 3 row_a row_b

compare-IsOrder_example : IsOrder (compare integer_type 0 3 schema by_both)
compare-IsOrder_example = compare-IsOrder integer_type 0 schema by_both 3

create_schema_lem_example :
    (get_columns (create_schema 0 int_and_long) ≡ length int_and_long)
    × (get_bytes (create_schema 0 int_and_long) ≡ widths int_and_long)
    × (get_addr 0 (create_schema 0 int_and_long) 1 ≡ widths (take 1 int_and_long))
    × (get_data_type integer_type (create_schema 0 int_and_long) 1
        ≡ type_of (get_or int_and_long 1 t_long))
create_schema_lem_example =
    create_schema_lem integer_type 0 0 int_and_long 1 (tt, (tt, tt)) (omega arith)

abbrev rows : List (List ℕ)
rows = row_c ∷ row_b ∷ row_a ∷ []

heap_sort-heap_example :
    HeapFrom less_or_equal []
      (compare-IsOrder integer_type 0 schema by_both 3)
      0
      3
      (heap_sort less_or_equal [] rows 3)
    × ((c : ℕ)
        → c < 3
        → less_or_equal
            (get_or (heap_sort less_or_equal [] rows 3) 0 [])
            (get_or (heap_sort less_or_equal [] rows 3) c [])
          ≡ true)
    × ((p : List ℕ → Bool) → count p (heap_sort less_or_equal [] rows 3) ≡ count p rows)
heap_sort-heap_example =
    heap_sort-heap less_or_equal [] (compare-IsOrder integer_type 0 schema by_both 3) 3 rows
      (omega arith)

-- The negative int comes first, and of equal ints the larger long.
sorted_rows : heap_sort less_or_equal [] rows 3 ≡ row_a ∷ row_b ∷ row_c ∷ []
unfolding heap_sort compare create_schema heap_sort_from heap_again heap_again_from get_u32
sorted_rows = refl
