-- ===== src/Sort/Calls.antt =====
-- src/physical/m_sort.cpp: the calls of `execute` one after the other.
use mosito.Base.{
  ℕ, zero, suc, ◌+◌, ◌≤◌, ◌<◌, ◌≡◌, refl, ap, sym, ◌∙◌, Option, some, List, [], ◌∷◌, ◌++◌, concat,
  All, length, ◌==◌, arith, Bool-cases, inl, inr, ◌⊎◌, length-append,
}
use mosito.Page.{room, counted, assembled, length-assembled}
use mosito.Sort.{Sort, execute, gather}
use mosito.Sort.Remaining.{Tuples, remaining, IsCounted}
use mosito.Sort.Output.{Filled, length-zero, fill_page}

-- Every call stores `room` tuples, but the last one may store fewer, never none.
abbrev pub IsFilled : ℕ → List Tuples → Type 0
IsFilled room [] = Unit
IsFilled room (p ∷ []) = (0 < length p) × (length p ≤ room)
IsFilled room (p ∷ q ∷ ps) = (length p ≡ room) × IsFilled room (q ∷ ps)

first_nonempty :
    (room : ℕ) (p : Tuples) (ps : List Tuples) → 0 < room → IsFilled room (p ∷ ps) → 0 < length p
first_nonempty room p [] n h = h.0
first_nonempty room p (q ∷ ps) n h = omega (arith, n, h.0)

one_more :
    (room : ℕ) (p : Tuples) (ps : List Tuples) (rest : Tuples)
    → 0 < room
    → 0 < length p
    → length p ≤ room
    → (length p ≡ room) ⊎ (rest ≡ [])
    → concat ps ≡ rest
    → IsFilled room ps
    → IsFilled room (p ∷ ps)
one_more room p [] rest n h fits full e ps = (h, fits)
one_more room p (q ∷ qs) rest n h fits (inl f) e ps = (f, ps)
one_more room p (q ∷ qs) rest n h fits (inr f) e ps =
    absurd
      (omega (arith, first_nonempty room q qs n ps, length-append q (concat qs), ap length (e ∙ f)))

stores_some :
    (s : Sort) (room : ℕ) (outcome : Option (Tuples × Sort)) (r : Filled s room [] outcome)
    → 0 < room
    → 0 < s.temp_cur
    → s.temp_cur ≡ length r.stored + r.next.temp_cur
    → 0 < length r.stored
stores_some s room outcome r n h e = elim r.full [
  | inl l ↦ omega (arith, l, n)
  | inr l ↦ omega (arith, ap length l, r.counted.temp_cur, e, h)
]

-- What a reader gets after each call, when the calls store `chunks` into the block `block`.
abbrev pub shown : ℕ → Tuples → List Tuples → List Tuples
shown tuple_size block [] = []
shown tuple_size block (chunk ∷ chunks) =
    assembled tuple_size chunk block ∷ shown tuple_size (assembled tuple_size chunk block) chunks

pub shown_all :
    (tuple_size : ℕ) (block : Tuples) (chunks : List Tuples)
    → length block ≡ counted tuple_size
    → All (λ page. length page ≡ counted tuple_size) (shown tuple_size block chunks)
shown_all tuple_size block [] h = tt
shown_all tuple_size block (chunk ∷ chunks) h =
    let size = length-assembled tuple_size chunk block h in
    (size, shown_all tuple_size (assembled tuple_size chunk block) chunks size)

-- `gather` with a round for each tuple ends, and the calls store what remained, in its order.
pub gather-Pages :
    (tuple_size fuel : ℕ) (block : Tuples) (s : Sort)
    → 0 < room tuple_size
    → s.temp_cur < fuel
    → IsCounted s
    → (chunks : List Tuples) × (gather tuple_size fuel block s
        ≡ some (shown tuple_size block chunks))
      × (concat chunks ≡ remaining s)
      × IsFilled (room tuple_size) chunks
unfolding gather execute
gather-Pages size zero block s n f c = absurd (omega arith)
gather-Pages size (suc fuel) block s n f c = elim (Bool-cases (s.temp_cur == 0)) [
  | inl z ↦ (
    [],
    rw (z, gather) refl,
    sym (length-zero (remaining s) (sym c.temp_cur ∙ ground (arith, z))),
    tt,
  )
  | inr z ↦
      let r = fill_page (room size) s c (ground (arith, z)) in
      let total : s.temp_cur ≡ length r.stored + r.next.temp_cur = omega (
        arith,
        c.temp_cur,
        r.counted.temp_cur,
        ap length r.left,
        length-append r.stored (remaining r.next),
      ) in
      let some_stored : 0 < length r.stored =
        stores_some s (room size) _ r n (ground (arith, z)) total in
      let (chunks, e, same, full) =
        gather-Pages size fuel (assembled size r.stored block) r.next n
          (omega (arith, total, some_stored, f)) r.counted in
      (
        r.stored ∷ chunks,
        rw (z, r.result, e, gather) refl,
        ap (λ l. r.stored ++ l) same ∙ sym r.left,
        one_more (room size) r.stored chunks (remaining r.next) n some_stored r.fits r.full same
            full,
      )
]
