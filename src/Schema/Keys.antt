-- ===== src/Schema/Keys.antt =====
-- The order that the comparator computes: the columns as keys that are ordered as numbers.
use mosito.Base.{
  ℕ, ◌+◌, ◌-◌, ◌%◌, ◌<◌, ◌≡◌, refl, Bool, true, false, List, [], ◌∷◌, ltb, ◌==◌, if◌then◌else◌,
  arith, ◌&&◌,
}
use mosito.Base.Bytes.{get_u32, get_u64}
use mosito.Schema.{
  DataType, integer_type, un_long_type, to_signed, get_int, get_ulong, lt_int, eq_int, ls, gt, eq,
  Schema, get_data_type, get_addr, Direction, ascending, descending, SortOrderRef, next_flag,
  compare_from, compare,
}

-- The bit pattern of an `int` with its sign bit turned over, or that of an `unsigned long`.
abbrev pub rank : DataType → List ℕ → ℕ → ℕ
rank integer_type mem off = (get_u32 mem off % 4294967296 + 2147483648) % 4294967296
rank un_long_type mem off = get_u64 mem off % 18446744073709551616

-- Keys of a descending column are counted from above.
abbrev pub key : DataType → Direction → List ℕ → ℕ → ℕ
key t ascending mem off = rank t mem off
key t descending mem off = 18446744073709551616 - rank t mem off

rank_bound : (t : DataType) (mem : List ℕ) (off : ℕ) → rank t mem off < 18446744073709551616
rank_bound integer_type mem off = omega arith
rank_bound un_long_type mem off = omega arith

signed_lt :
    (x y : ℕ)
    → x < 4294967296
    → y < 4294967296
    → lt_int (to_signed x) (to_signed y)
      ≡ ltb ((x + 2147483648) % 4294967296) ((y + 2147483648) % 4294967296)
unfolding lt_int to_signed
signed_lt x y h k = ground arith

signed_eq :
    (x y : ℕ)
    → x < 4294967296
    → y < 4294967296
    → eq_int (to_signed x) (to_signed y)
      ≡ (((x + 2147483648) % 4294967296) == ((y + 2147483648) % 4294967296))
unfolding eq_int to_signed
signed_eq x y h k = ground arith

ls-rank :
    (t : DataType) (l : List ℕ) (i : ℕ) (r : List ℕ) (j : ℕ)
    → ls t l i r j ≡ ltb (rank t l i) (rank t r j)
unfolding ls get_int get_ulong
ls-rank integer_type l i r j = signed_lt _ _ (omega arith) (omega arith)
ls-rank un_long_type l i r j = refl

gt-rank :
    (t : DataType) (l : List ℕ) (i : ℕ) (r : List ℕ) (j : ℕ)
    → gt t l i r j ≡ ltb (rank t r j) (rank t l i)
unfolding gt get_int get_ulong
gt-rank integer_type l i r j = signed_lt _ _ (omega arith) (omega arith)
gt-rank un_long_type l i r j = refl

eq-rank :
    (t : DataType) (l : List ℕ) (i : ℕ) (r : List ℕ) (j : ℕ)
    → eq t l i r j ≡ (rank t l i == rank t r j)
unfolding eq get_int get_ulong
eq-rank integer_type l i r j = signed_eq _ _ (omega arith) (omega arith)
eq-rank un_long_type l i r j = refl

-- The three-way comparison of two keys.
abbrev sign : ℕ → ℕ → ℕ
sign a b = if a == b then 0 else (if ltb a b then 1 else 2)

next_flag-sign :
    (t : DataType) (dir : Direction) (l r : List ℕ) (at flag : ℕ)
    → next_flag t dir l r at flag ≡ sign (key t dir l at) (key t dir r at)
unfolding next_flag
next_flag-sign t ascending l r at flag =
    rw (ls-rank t l at r at, gt-rank t l at r at, eq-rank t l at r at)
      (ascends (rank t l at) (rank t r at))
  where
    ascends :
        (a b : ℕ)
        → (if a == b
            then 0
            else (if ltb a b && true
                then 1
                else (if ltb a b && false
                    then 2
                    else (if ltb b a && false then 1 else (if ltb b a && true then 2 else flag)))))
          ≡ sign a b
    ascends a b = ground arith
next_flag-sign t descending l r at flag =
    rw (ls-rank t l at r at, gt-rank t l at r at, eq-rank t l at r at)
      (descends (rank t l at) (rank t r at) (rank_bound t l at) (rank_bound t r at))
  where
    descends :
        (a b : ℕ)
        → a < 18446744073709551616
        → b < 18446744073709551616
        → (if a == b
            then 0
            else (if ltb a b && false
                then 1
                else (if ltb a b && true
                    then 2
                    else (if ltb b a && true then 1 else (if ltb b a && false then 2 else flag)))))
          ≡ sign (18446744073709551616 - a) (18446744073709551616 - b)
    descends a b h k = ground arith

-- Lexicographic order.
abbrev pub lex_leb : List ℕ → List ℕ → Bool
lex_leb [] ys = true
lex_leb (x ∷ xs) [] = false
lex_leb (x ∷ xs) (y ∷ ys) = if x == y then lex_leb xs ys else ltb x y

-- The keys of a tuple for a sort order.
module _ (outside : DataType) (wild : ℕ) where
  abbrev pub keys : Schema → ℕ → List SortOrderRef → List ℕ → List ℕ
  keys schema i [] tuple = []
  keys schema i (v ∷ vs) tuple =
      key (get_data_type outside schema i) v.direction tuple (get_addr wild schema v.offset)
      ∷ keys schema (i + 1) vs tuple

  sign_step :
      (a b : ℕ) (rest : Bool)
      → (if sign a b == 0
          then rest
          else (if sign a b == 1 then true else (if sign a b == 2 then false else rest)))
        ≡ (if a == b then rest else ltb a b)
  sign_step a b rest = ground arith

  compare_from-lex :
      (schema : Schema) (vs : List SortOrderRef) (flag i : ℕ) (left right : List ℕ)
      → compare_from outside wild flag schema i vs left right
        ≡ lex_leb (keys schema i vs left) (keys schema i vs right)
  unfolding compare_from
  compare_from-lex schema [] flag i left right = refl
  compare_from-lex schema (v ∷ vs) flag i left right =
      let t = get_data_type outside schema i in
      let at = get_addr wild schema v.offset in
      rw
        (
          next_flag-sign t v.direction left right at flag,
          compare_from-lex schema vs (sign (key t v.direction left at) (key t v.direction right at))
              (i + 1) left right,
        )
        (sign_step (key t v.direction left at) (key t v.direction right at) _)

  -- `Comparator::compare` is "less or equal" in the lexicographic order of the keys, whatever stood
  -- in its local variable.
  pub compare-lex :
      (schema : Schema) (vs : List SortOrderRef) (junk : ℕ) (left right : List ℕ)
      → compare outside wild junk schema vs left right
        ≡ lex_leb (keys schema 0 vs left) (keys schema 0 vs right)
  unfolding compare
  compare-lex schema vs junk left right = compare_from-lex schema vs junk 0 left right
