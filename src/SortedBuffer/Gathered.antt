-- ===== src/SortedBuffer/Gathered.antt =====
-- The pages that a caller gets from a merge that is going on.
use mosito.Base.{
  ℕ, zero, suc, ◌≤◌, ◌<◌, ◌≡◌, refl, ap, sym, ◌∙◌, subst, inl, inr, arith, Bool, true, false,
  Option, some, List, [], ◌∷◌, ◌++◌, map, take, concat, length, All,
}
use mathlib.Core.List.{append_assoc}
use mosito.Heap.Same.{count-all}
use mosito.Heap.Sift.{IsOrder}
use mosito.Page.{room, counted, room_some, counted-room, assembled_full}
use mosito.Queue.{block_size}
use mosito.SortedBuffer.{PcBuffer, fill_from, filled_block, get_sorted, gather}
use mosito.SortedBuffer.Emits.{Emits, Emits-append, Emits-count}
use mosito.SortedBuffer.Merging.{Merging}
use mosito.SortedBuffer.Pages.{fill_from-Fills}

module _ {ℓ} {T : Type ℓ} (compare : T → T → Bool) (nothing : T) (is_null : T → Bool)
    (last : T) where
  -- What is stored into the pages, and into the page that is given up.
  pub record Gathered (tuple_size : ℕ) (rests : List (List T)) (outcome : Option (List (List T)))
      : Type ℓ where
    pub chunks : List (List T)
    pub lost : List T
    pub left : List (List T)
    pub result : outcome ≡ some (map (take (counted tuple_size)) chunks)
    pub full : All (λ chunk. length chunk ≡ room tuple_size) chunks
    pub some_lost : 0 < length lost
    pub at_most : length lost ≤ room tuple_size
    pub emits : Emits compare (concat chunks ++ lost) rests left
    pub no_more : length (concat left) ≡ 0

  get_sorted_lem :
      (tuple_size : ℕ) (b : List ℕ) (block : List T) (s : PcBuffer T)
      → s.begin ≡ true
      → get_sorted compare nothing is_null last tuple_size b block s
        ≡ filled_block compare nothing is_null last tuple_size block
            (fill_from compare nothing is_null last (room tuple_size) s [])
  unfolding get_sorted
  get_sorted_lem tuple_size b block s e = ground (arith, e)

  -- A call that fills the page: the caller gets the tuples that are counted.
  get_sorted_full :
      (tuple_size : ℕ) (b : List ℕ) (block : List T) (s next : PcBuffer T) (out : List T)
      → 0 < tuple_size
      → length out ≡ room tuple_size
      → s.begin ≡ true
      → fill_from compare nothing is_null last (room tuple_size) s [] ≡ some (true, out, next)
      → get_sorted compare nothing is_null last tuple_size b block s
        ≡ some (true, take (counted tuple_size) out, next)
  unfolding filled_block
  get_sorted_full tuple_size b block s next out n l e f =
      get_sorted_lem tuple_size b block s e
      ∙ ap (filled_block compare nothing is_null last tuple_size block) f
      ∙ ap (λ page. some (true, page, next))
          (assembled_full tuple_size out block (omega (arith, l, counted-room tuple_size n)))

  get_sorted_over :
      (tuple_size : ℕ) (b : List ℕ) (block : List T) (s next : PcBuffer T)
      → s.begin ≡ true
      → fill_from compare nothing is_null last (room tuple_size) s [] ≡ some (false, [], next)
      → get_sorted compare nothing is_null last tuple_size b block s ≡ some (false, [], next)
  unfolding filled_block
  get_sorted_over tuple_size b block s next e f =
      get_sorted_lem tuple_size b block s e
      ∙ ap (filled_block compare nothing is_null last tuple_size block) f

  gather_over :
      (fuel tuple_size : ℕ) (b : List ℕ) (block : List T) (s next : PcBuffer T)
      → get_sorted compare nothing is_null last tuple_size b block s ≡ some (false, [], next)
      → gather compare nothing is_null last (suc fuel) tuple_size b block s ≡ some []
  unfolding gather
  gather_over fuel tuple_size b block s next e = rw (e, gather) refl

  gather_more :
      (fuel tuple_size : ℕ) (b : List ℕ) (block : List T) (s next : PcBuffer T) (page : List T)
      (pages : List (List T))
      → get_sorted compare nothing is_null last tuple_size b block s ≡ some (true, page, next)
      → gather compare nothing is_null last fuel tuple_size b page next ≡ some pages
      → gather compare nothing is_null last (suc fuel) tuple_size b block s ≡ some (page ∷ pages)
  unfolding gather
  gather_more fuel tuple_size b block s next page pages e f = rw (e, f, gather) refl

  module _ (order : IsOrder compare) (filled : is_null last ≡ false) where
    pub gather-Gathered :
        (fuel tuple_size : ℕ) (b : List ℕ) (block : List T) (s : PcBuffer T) (rests : List (List T))
        → 0 < tuple_size
        → tuple_size ≤ block_size
        → Merging compare nothing is_null last s rests
        → 0 < length (concat rests)
        → length (concat rests) < fuel
        → Gathered tuple_size rests (gather compare nothing is_null last fuel tuple_size b block s)
    gather-Gathered zero size b block s rests n u m h f = absurd (omega arith)
    gather-Gathered (suc fuel) size b block s rests n u m h f =
        elim (fill_from-Fills compare nothing is_null last order filled (room size) s rests [] m
          h) [
            | inl r ↦
                let all_of = Emits-count compare (λ t. true) r.out rests r.left r.emits in
                let fewer : length (concat r.left) < fuel = omega (
                  arith,
                  f,
                  room_some size n u,
                  r.size,
                  all_of,
                  count-all (concat rests),
                  count-all r.out,
                  count-all (concat r.left),
                ) in
                let g =
                  gather-Gathered fuel size b (take (counted size) r.out) r.next r.left n u
                    r.merging r.more fewer in
                record {
                  chunks = r.out ∷ g.chunks;
                  lost = g.lost;
                  left = g.left;
                  result =
                      gather_more fuel size b block s r.next (take (counted size) r.out) _
                        (get_sorted_full size b block s r.next r.out n r.size m.begun r.result)
                        g.result;
                  full = (r.size, g.full);
                  some_lost = g.some_lost;
                  at_most = g.at_most;
                  emits =
                      subst (λ out. Emits compare out rests g.left)
                        (sym (append_assoc r.out (concat g.chunks) g.lost))
                        (Emits-append compare r.out (concat g.chunks ++ g.lost) rests r.left g.left
                          r.emits g.emits);
                  no_more = g.no_more;
                }
            | inr r ↦ record {
              chunks = [];
              lost = r.out;
              left = r.left;
              result =
                  gather_over fuel size b block s r.next
                    (get_sorted_over size b block s r.next m.begun r.result);
              full = tt;
              some_lost = r.some_lost;
              at_most = r.size;
              emits = r.emits;
              no_more = r.no_more;
            }
          ]
