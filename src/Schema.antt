-- ===== src/Schema.antt =====
-- src/common/m_schema.h and m_schema.cpp, with the column types of m_data_type.h and the comparator of
-- m_trees.cpp. A tuple is the bytes from its address on, and a column is an offset into them.
pub mod Offsets
pub mod Keys
pub mod Order
use mosito.Base.{
  ℕ, zero, suc, ◌+◌, ◌-◌, ◌%◌, ℤ, pos, negsuc, Bool, true, false, ◌&&◌, List, [], ◌∷◌, length,
  get_or, ltb, ◌==◌, if◌then◌else◌,
}
use mosito.Base.Bytes.{get_u32, get_u64}

pub data ReturnType : Type 0 where
  t_int : ReturnType
  t_double : ReturnType
  t_long : ReturnType

-- The classes of `DataType`.
pub data DataType : Type 0 where
  integer_type : DataType
  un_long_type : DataType

-- `*(int *)` and `*(unsigned long *)`.
unfoldable pub to_signed : ℕ → ℤ
to_signed x = if ltb x 2147483648 then pos x else negsuc (4294967295 - x)

unfoldable pub get_int : List ℕ → ℕ → ℤ
unfolding to_signed
get_int mem off = to_signed (get_u32 mem off % 4294967296)

unfoldable pub get_ulong : List ℕ → ℕ → ℕ
get_ulong mem off = get_u64 mem off % 18446744073709551616

unfoldable pub lt_int : ℤ → ℤ → Bool
lt_int (pos a) (pos b) = ltb a b
lt_int (pos a) (negsuc b) = false
lt_int (negsuc a) (pos b) = true
lt_int (negsuc a) (negsuc b) = ltb b a

unfoldable pub eq_int : ℤ → ℤ → Bool
eq_int (pos a) (pos b) = a == b
eq_int (pos a) (negsuc b) = false
eq_int (negsuc a) (pos b) = false
eq_int (negsuc a) (negsuc b) = a == b

-- The virtual functions; each column is a tuple and an offset.
unfoldable pub ls : DataType → List ℕ → ℕ → List ℕ → ℕ → Bool
unfolding get_int get_ulong lt_int
ls integer_type l i r j = lt_int (get_int l i) (get_int r j)
ls un_long_type l i r j = ltb (get_ulong l i) (get_ulong r j)

unfoldable pub gt : DataType → List ℕ → ℕ → List ℕ → ℕ → Bool
unfolding get_int get_ulong lt_int
gt integer_type l i r j = lt_int (get_int r j) (get_int l i)
gt un_long_type l i r j = ltb (get_ulong r j) (get_ulong l i)

unfoldable pub eq : DataType → List ℕ → ℕ → List ℕ → ℕ → Bool
unfolding get_int get_ulong eq_int
eq integer_type l i r j = eq_int (get_int l i) (get_int r j)
eq un_long_type l i r j = get_ulong l i == get_ulong r j

pub record Schema : Type 0 where
  pub types : List DataType
  pub offsets : List ℕ
  pub bytes : ℕ

-- The constructor's loop from `offset` on. A double gets no type, and its offset stays what the
-- array held, here `junk`.
unfoldable pub create_from : ℕ → ℕ → List ReturnType → Schema
create_from junk offset [] = record { types = []; offsets = []; bytes = offset }
create_from junk offset (t_int ∷ ts) =
    let s = create_from junk (offset + 4) ts in
    record { types = integer_type ∷ s.types; offsets = offset ∷ s.offsets; bytes = s.bytes }
create_from junk offset (t_long ∷ ts) =
    let s = create_from junk (offset + 8) ts in
    record { types = un_long_type ∷ s.types; offsets = offset ∷ s.offsets; bytes = s.bytes }
create_from junk offset (t_double ∷ ts) =
    let s = create_from junk offset ts in
    record { types = s.types; offsets = junk ∷ s.offsets; bytes = s.bytes }

unfoldable pub create_schema : ℕ → List ReturnType → Schema
unfolding create_from
create_schema junk ts = create_from junk 0 ts

unfoldable pub get_columns : Schema → ℕ
get_columns s = length s.types

unfoldable pub get_bytes : Schema → ℕ
get_bytes s = s.bytes

-- `outside` and `wild` are what is found behind the end of the two arrays.
unfoldable pub get_data_type : DataType → Schema → ℕ → DataType
get_data_type outside s off = get_or s.types off outside

unfoldable pub get_addr : ℕ → Schema → ℕ → ℕ
get_addr wild s seq = get_or s.offsets seq wild

pub data Direction : Type 0 where
  ascending : Direction
  descending : Direction

pub record SortOrderRef : Type 0 where
  pub offset : ℕ
  pub direction : Direction

abbrev pub is_ascending : Direction → Bool
is_ascending ascending = true
is_ascending descending = false

abbrev pub is_descending : Direction → Bool
is_descending ascending = false
is_descending descending = true

-- The assignments to `flag` in a round of `Comparator::compare`; it keeps its value when no test
-- holds.
unfoldable pub next_flag : DataType → Direction → List ℕ → List ℕ → ℕ → ℕ → ℕ
unfolding ls gt eq
next_flag t dir left right at flag =
    if eq t left at right at
    then 0
    else (if ls t left at right at && is_ascending dir
        then 1
        else (if ls t left at right at && is_descending dir
            then 2
            else (if gt t left at right at && is_descending dir
                then 1
                else (if gt t left at right at && is_ascending dir then 2 else flag))))

module _ (outside : DataType) (wild : ℕ) where
  -- The rounds from `i` on; the type is that of column `i` of the schema.
  unfoldable pub compare_from : ℕ → Schema → ℕ → List SortOrderRef → List ℕ → List ℕ → Bool
  unfolding get_data_type get_addr next_flag
  compare_from flag schema i [] left right = true
  compare_from flag schema i (v ∷ vs) left right =
      let now =
        next_flag (get_data_type outside schema i) v.direction left right
          (get_addr wild schema v.offset) flag in
      let rest = compare_from now schema (i + 1) vs left right in
      if now == 0 then rest else (if now == 1 then true else (if now == 2 then false else rest))

  unfoldable pub compare : ℕ → Schema → List SortOrderRef → List ℕ → List ℕ → Bool
  unfolding compare_from
  compare junk schema vs left right = compare_from junk schema 0 vs left right
