-- ===== src/SortedBuffer/Pages.antt =====
-- The pages of a merge that is going on.
use mosito.Base.{
  ℕ, zero, suc, ◌-◌, ◌≤◌, ◌<◌, ◌≡◌, refl, ap, sym, ◌∙◌, ◌⊎◌, inl, inr, arith, Bool, true, false,
  Option, some, List, [], ◌∷◌, ◌++◌, concat, length, set, get_or,
}
use mathlib.Core.List.{append_assoc, append-nil}
use mosito.Heap.Sift.{IsOrder}
use mosito.LoserTree.{LoserTree, winner, win_tuple, load, replay}
use mosito.SortedBuffer.{PcBuffer, Next, next_tuple, fill_from}
use mosito.SortedBuffer.Emits.{Emits}
use mosito.SortedBuffer.Merging.{Merging, least_left}
use mosito.SortedBuffer.Pull.{winner_inside}
use mosito.SortedBuffer.Rounds.{GoesOn, Ends, round}

module _ {ℓ} {T : Type ℓ} (compare : T → T → Bool) (nothing : T) (is_null : T → Bool) (last : T)
    (order : IsOrder compare) (filled : is_null last ≡ false) where
  -- The page is full, and more is left.
  pub record Full (room : ℕ) (rests : List (List T)) (block : List T)
      (outcome : Option (Bool × List T × PcBuffer T)) : Type ℓ where
    pub out : List T
    pub next : PcBuffer T
    pub left : List (List T)
    pub result : outcome ≡ some (true, block ++ out, next)
    pub size : length out ≡ room
    pub emits : Emits compare out rests left
    pub merging : Merging compare nothing is_null last next left
    pub more : 0 < length (concat left)

  -- Nothing more is left, and the page is given up.
  pub record Over (room : ℕ) (rests : List (List T)) (outcome : Option (Bool × List T × PcBuffer T))
      : Type ℓ where
    pub out : List T
    pub next : PcBuffer T
    pub left : List (List T)
    pub result : outcome ≡ some (false, [], next)
    pub some_lost : 0 < length out
    pub size : length out ≤ room
    pub emits : Emits compare out rests left
    pub no_more : length (concat left) ≡ 0

  abbrev pub Fills : ℕ → PcBuffer T → List (List T) → List T → Type ℓ
  Fills room s rests block =
      Full room rests block (fill_from compare nothing is_null last room s block)
      ⊎ Over room rests (fill_from compare nothing is_null last room s block)

  -- The case of a round in which the winner is replayed.
  replayed : ℕ → PcBuffer T → List T → ℕ × LoserTree T → Option (Bool × List T × PcBuffer T)
  replayed room next stored r = elim (r.0) [
    | zero ↦ fill_from compare nothing is_null last room (record next { lt = r.1 }) stored
    | suc n ↦ some (true, stored, record next { lt = r.1 })
  ]

  fill_step :
      (room : ℕ) (s : PcBuffer T) (block : List T) (t : T) (next : PcBuffer T) (lt : LoserTree T)
      → next_tuple compare nothing is_null last (winner compare nothing s.lt - 1) s
        ≡ Next.loads t next
      → replay compare nothing is_null
          (winner compare nothing s.lt)
          (load compare nothing (winner compare nothing s.lt) t next.lt)
        ≡ (0, lt)
      → fill_from compare nothing is_null last (suc room) s block
        ≡ fill_from compare nothing is_null last room
            (record next { lt = lt })
            (block ++ win_tuple compare nothing s.lt ∷ [])
  unfolding fill_from replayed
  fill_step room s block t next lt e f =
      rw (e, fill_from) refl
      ∙ ap (replayed room next (block ++ win_tuple compare nothing s.lt ∷ [])) f

  fill_more :
      (room : ℕ) (s : PcBuffer T) (rests : List (List T)) (block tail : List T)
      (m : Merging compare nothing is_null last s rests)
      → get_or rests (winner compare nothing s.lt - 1) [] ≡ win_tuple compare nothing s.lt ∷ tail
      → (g : GoesOn compare nothing is_null last order filled s rests m tail)
      → Fills room
          (record (g.next) { lt = g.lt })
          (set rests (winner compare nothing s.lt - 1) tail)
          (block ++ win_tuple compare nothing s.lt ∷ [])
      → Fills (suc room) s rests block
  fill_more room s rests block tail m taken g f =
      let t = win_tuple compare nothing s.lt in
      let inside : winner compare nothing s.lt - 1 < length rests =
        omega
          (arith, (winner_inside compare nothing is_null last order filled s rests m).1, m.rows) in
      let least = least_left compare nothing is_null last s rests order m in
      let step = fill_step room s block g.t g.next g.lt g.moved g.played in
      elim f [
        | inl r ↦ inl (record {
          out = t ∷ r.out;
          next = r.next;
          left = r.left;
          result =
              step
              ∙ r.result
              ∙ ap (λ b. some (true, b, r.next)) (append_assoc block (t ∷ []) r.out);
          size = omega (arith, r.size);
          emits = (winner compare nothing s.lt - 1, tail, inside, taken, least, r.emits);
          merging = r.merging;
          more = r.more;
        })
        | inr r ↦ inr (record {
          out = t ∷ r.out;
          next = r.next;
          left = r.left;
          result = step ∙ r.result;
          some_lost = omega arith;
          size = omega (arith, r.size);
          emits = (winner compare nothing s.lt - 1, tail, inside, taken, least, r.emits);
          no_more = r.no_more;
        })
      ]

  fill_last :
      (room : ℕ) (s : PcBuffer T) (rests : List (List T)) (block tail : List T)
      (m : Merging compare nothing is_null last s rests)
      → get_or rests (winner compare nothing s.lt - 1) [] ≡ win_tuple compare nothing s.lt ∷ tail
      → Ends compare nothing is_null last order filled s rests m tail
      → Fills (suc room) s rests block
  fill_last room s rests block tail m taken g =
      let inside : winner compare nothing s.lt - 1 < length rests =
        omega
          (arith, (winner_inside compare nothing is_null last order filled s rests m).1, m.rows) in
      inr (record {
        out = win_tuple compare nothing s.lt ∷ [];
        next = g.ended;
        left = set rests (winner compare nothing s.lt - 1) tail;
        result = unfold fill_from in rw (g.moved, fill_from) refl;
        some_lost = omega arith;
        size = omega arith;
        emits = (
          winner compare nothing s.lt - 1,
          tail,
          inside,
          taken,
          least_left compare nothing is_null last s rests order m,
          refl,
        );
        no_more = g.no_more;
      })

  pub fill_from-Fills :
      (room : ℕ) (s : PcBuffer T) (rests : List (List T)) (block : List T)
      → Merging compare nothing is_null last s rests
      → 0 < length (concat rests)
      → Fills room s rests block
  fill_from-Fills zero s rests block m h = inl (record {
    out = [];
    next = s;
    left = rests;
    result = unfold fill_from in ap (λ b. some (true, b, s)) (sym (append-nil block));
    size = refl;
    emits = refl;
    merging = m;
    more = h;
  })
  fill_from-Fills (suc room) s rests block m h =
      let (tail, taken, r) = round compare nothing is_null last order filled s rests m h in
      elim r [
        | inl g ↦ fill_more room s rests block tail m taken g (
            fill_from-Fills room (record (g.next) { lt = g.lt })
              (set rests (winner compare nothing s.lt - 1) tail)
              (block ++ win_tuple compare nothing s.lt ∷ []) g.merging g.more)
        | inr g ↦ fill_last room s rests block tail m taken g
      ]
