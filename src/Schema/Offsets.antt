-- ===== src/Schema/Offsets.antt =====
-- The columns of a schema without doubles lie side by side.
use mosito.Base.{
  ℕ, zero, suc, ◌+◌, ◌<◌, ◌≡◌, refl, ap, List, [], ◌∷◌, length, get_or, arith, take, All,
}
use mosito.Schema.{
  ReturnType, t_int, t_double, t_long, create_from, create_schema, get_columns, get_bytes, get_addr,
  DataType, integer_type, un_long_type, get_data_type,
}

abbrev pub width : ReturnType → ℕ
width t_int = 4
width t_double = 8
width t_long = 8

abbrev pub type_of : ReturnType → DataType
type_of t_int = integer_type
type_of t_double = un_long_type
type_of t_long = un_long_type

abbrev pub widths : List ReturnType → ℕ
widths [] = 0
widths (t ∷ ts) = width t + widths ts

abbrev pub HasType : ReturnType → Type 0
HasType t_int = Unit {0}
HasType t_double = ⊥
HasType t_long = Unit {0}

module _ (outside : DataType) (wild junk : ℕ) where
  from_columns :
      (ts : List ReturnType) (o : ℕ)
      → All HasType ts
      → (length (create_from junk o ts).types ≡ length ts)
        × ((create_from junk o ts).bytes ≡ o + widths ts)
  unfolding create_from
  from_columns [] o h = (refl, omega arith)
  from_columns (t_int ∷ ts) o h =
      let r = from_columns ts (o + 4) h.1 in (ap suc r.0, omega (arith, r.1))
  from_columns (t_double ∷ ts) o h = absurd h.0
  from_columns (t_long ∷ ts) o h =
      let r = from_columns ts (o + 8) h.1 in (ap suc r.0, omega (arith, r.1))

  from_column :
      (ts : List ReturnType) (o i : ℕ)
      → All HasType ts
      → i < length ts
      → (get_or (create_from junk o ts).offsets i wild ≡ o + widths (take i ts))
        × (get_or (create_from junk o ts).types i outside ≡ type_of (get_or ts i t_long))
  unfolding create_from
  from_column [] o i h l = absurd (omega arith)
  from_column (t_int ∷ ts) o zero h l = (omega arith, refl)
  from_column (t_int ∷ ts) o (suc i) h l =
      let r = from_column ts (o + 4) i h.1 (omega arith) in (omega (arith, r.0), r.1)
  from_column (t_double ∷ ts) o i h l = absurd h.0
  from_column (t_long ∷ ts) o zero h l = (omega arith, refl)
  from_column (t_long ∷ ts) o (suc i) h l =
      let r = from_column ts (o + 8) i h.1 (omega arith) in (omega (arith, r.0), r.1)

  -- A schema of ints and longs has a column for each of them. Column `i` has the type asked for, and
  -- its offset is the width of the columns before it; the size is the width of all.
  pub create_schema_lem :
      (ts : List ReturnType) (i : ℕ)
      → All HasType ts
      → i < length ts
      → (get_columns (create_schema junk ts) ≡ length ts)
        × (get_bytes (create_schema junk ts) ≡ widths ts)
        × (get_addr wild (create_schema junk ts) i ≡ widths (take i ts))
        × (get_data_type outside (create_schema junk ts) i ≡ type_of (get_or ts i t_long))
  unfolding create_schema get_columns get_bytes get_addr get_data_type
  create_schema_lem ts i h l = (
    (from_columns ts 0 h).0,
    omega (arith, (from_columns ts 0 h).1),
    omega (arith, (from_column ts 0 i h l).0),
    (from_column ts 0 i h l).1,
  )
