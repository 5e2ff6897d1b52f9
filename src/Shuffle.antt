-- ===== src/Shuffle.antt =====
-- src/physical/m_shuffle_lower1.cpp: `ShuffleLower1::execute`, which sends the tuples of its child to
-- the nodes by their keys. A page that is being filled is the list of its tuples: `allocateTuple` is
-- null when the next one does not fit, and what `assembling` leaves of the page are the tuples that
-- fit before its count. A put is tried until it succeeds; the model keeps the puts in their order, and
-- which block each came from.
pub mod Chunks
pub mod Puts
pub mod Columns
pub mod Step
pub mod Routes
use mosito.Base.{
  ℕ, zero, suc, ◌+◌, ◌-◌, ◌*◌, ◌/◌, Option, none, some, List, [], ◌∷◌, ◌++◌, map, length, get_or,
  set, take, replicate, ltb, ◌==◌, if◌then◌else◌,
}
use mosito.Page.{room, counted}
use mosito.Configuration.{cpu_core, datavolume}
use mosito.Sort.{key, compare_start_end}

abbrev pub Tuple : Type 0
Tuple = List ℕ

-- `source` is the `i` of `buffers_[i]`, or none for `buffer_`.
pub record Put : Type 0 where
  pub source : Option ℕ
  pub column : ℕ
  pub page : List Tuple

pub record ShuffleLower1 : Type 0 where
  pub buffers : List (List Tuple)
  pub puts : List Put

abbrev pub bounds : ℕ → List ℕ
bounds exchange_id =
    if exchange_id == 10
    then datavolume ∷ []
    else datavolume / cpu_core
      ∷ 2 * datavolume / cpu_core
      ∷ 3 * datavolume / cpu_core
      ∷ datavolume
      ∷ []

-- The loop is that of `Sort::compare_start_end`; `none` is the `ret` that is not set.
unfoldable pub partition : Tuple → List ℕ → Option ℕ
unfolding compare_start_end
partition tuple bounds = compare_start_end bounds (key tuple)

-- What `prelude` starts with: a buffer for each core.
abbrev pub started : ShuffleLower1
started = record { buffers = replicate cpu_core []; puts = [] }

-- `range_/mul`, for `mul` the cores of a node; `none` when it divides by zero, or when there is no
-- column of that number.
unfoldable pub column_of : ℕ → ℕ → Option ℕ
column_of seqs range =
    let mul = cpu_core / seqs in
    if mul == 0 then none else if ltb (range / mul) seqs then some (range / mul) else none

module _ (tuple_size exchange_id seqs : ℕ) where
  -- The page of a range that is full, cut where `assembling` puts the count.
  unfoldable pub put_page : List Put → ℕ → List Tuple → Option (List Put)
  unfolding column_of
  put_page puts range buffer =
      if exchange_id == 10 then some puts else elim (column_of seqs range) [
        | none ↦ none
        | some column ↦ some (
            puts
            ++ record {
              source = some range;
              column = column;
              page = take (counted tuple_size) buffer;
            }
              ∷ [])
      ]

  -- One tuple. When its page is full, the page is put, and the tuple is in none.
  unfoldable pub route : ShuffleLower1 → Tuple → Option ShuffleLower1
  unfolding partition put_page
  route s tuple = elim (partition tuple (bounds exchange_id)) [
    | none ↦ none
    | some range ↦
        let buffer = get_or s.buffers range [] in
        if ltb (length buffer) (room tuple_size)
        then some (record s { buffers = set s.buffers range (buffer ++ tuple ∷ []) })
        else elim (put_page s.puts range buffer) [
          | none ↦ none
          | some puts ↦ some (record { buffers = set s.buffers range []; puts = puts })
        ]
  ]

  unfoldable pub route_all : ShuffleLower1 → List Tuple → Option ShuffleLower1
  unfolding route
  route_all s [] = some s
  route_all s (tuple ∷ tuples) = elim (route s tuple) [ none ↦ none | some t ↦ route_all t tuples ]

  unfoldable pub route_pages : ShuffleLower1 → List (List Tuple) → Option ShuffleLower1
  unfolding route_all
  route_pages s [] = some s
  route_pages s (page ∷ pages) = elim (route_all s page) [
    | none ↦ none
    | some t ↦ route_pages t pages
  ]

  -- `buffer_` with the count 0, to each of the nodes from `i` on.
  unfoldable pub end_puts : ℕ → ℕ → List Put
  end_puts i zero = []
  end_puts i (suc k) = record { source = none; column = i; page = [] } ∷ end_puts (i + 1) k

  -- `pages` is what the child gives until it answers false; `none` is a `ret` that is not set, a division
  -- by zero or a column that is not there.
  unfoldable pub execute : ShuffleLower1 → List (List Tuple) → Option ShuffleLower1
  unfolding route_pages end_puts
  execute s pages = if seqs == 0 then none else elim (route_pages s pages) [
    | none ↦ none
    | some t ↦ some (record t { puts = t.puts ++ end_puts 0 seqs })
  ]
