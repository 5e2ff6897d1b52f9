-- ===== src/Runs/Adjust.antt =====
-- src/common/m_trees.cpp: `heap_adjust` keeps a run going, or ends it.
use mosito.Base.{
  ℕ, zero, suc, ◌+◌, ◌-◌, ◌≤◌, ◌<◌, ◌≡◌, refl, ap, ap₂, sym, ◌∙◌, subst, Bool, true, false, List,
  [], ◌∷◌, ◌++◌, length, get_or, set, ◌==◌, All, All-append, All-map, arith, Bool-cases, ◌⊎◌, inl,
  inr, length-set, get_or-set_self, get_or-set_ne,
}
use mosito.Heap.{heap_again, heap_sort}
use mosito.Heap.Sift.{IsOrder, parent, HeapFrom}
use mosito.Heap.Sift
use mosito.Heap.Again.{heap_again-HeapFrom, heap_sort-HeapFrom, top_least}
use mosito.Heap.Same.{heap_sort-Same}
use mosito.Heap.Window.{IsBound, heap_again-IsBound}
use mosito.Runs.Branches.{adjust_up, adjust_park, adjust_end}
use mosito.Runs.{heap_size, Sorter, heap_adjust}
use mosito.Runs.Ascending.{IsAscending, IsAscending-snoc}

module _ {ℓ} {T : Type ℓ} (compare : T → T → Bool) (nothing : T) (order : IsOrder compare) where
  abbrev at : List T → ℕ → T
  at array i = get_or array i nothing

  -- A run is being written: the first `waterline` tuples are a heap, and the tuples that are written
  -- are ascending and in order with each of these.
  pub record IsRun (s : Sorter compare nothing) : Type ℓ where
    pub size : length s.array ≡ heap_size
    pub some_left : 0 < s.waterline
    pub fits : s.waterline ≤ heap_size
    pub heap : HeapFrom compare nothing order 0 s.waterline s.array
    pub ascending : IsAscending compare s.flex_buffer
    pub bound : All (λ x. IsBound compare nothing x s.waterline s.array) s.flex_buffer

  -- Of a heap, what agrees with it but for the top is a heap below the top.
  HeapFrom-agrees :
      (len : ℕ) (a b : List T)
      → ((c : ℕ) → 0 < c → c < len → at b c ≡ at a c)
      → (m : ℕ) → len ≤ m
      → HeapFrom compare nothing order 0 m a
      → HeapFrom compare nothing order 1 len b
  HeapFrom-agrees len a b e m l h c p q r =
      ap₂ compare (e (parent c) (omega arith) (omega arith)) (e c p q)
      ∙ h c p (omega arith) (omega arith)

  -- What is in order with the top of a heap is in order with what agrees with it below the top.
  IsBound-agrees :
      (z : T) (len m : ℕ) (a b : List T)
      → compare z (at a 0) ≡ true
      → compare (at a 0) (at b 0) ≡ true
      → ((c : ℕ) → 0 < c → c < len → at b c ≡ at a c)
      → len ≤ m
      → HeapFrom compare nothing order 0 m a
      → IsBound compare nothing z len b
  IsBound-agrees z len m a b i t e l h zero q = order.trans z (at a 0) (at b 0) i t
  IsBound-agrees z len m a b i t e l h (suc c) q =
      ap (compare z) (e (suc c) (omega arith) q)
      ∙ order.trans z (at a 0) (at a (suc c)) i
          (top_least compare nothing order m m a h (suc c) (omega arith) (omega arith))

  resume :
      (s : Sorter compare nothing) (len : ℕ) (b : List T)
      → IsRun s
      → 0 < len
      → len ≤ s.waterline
      → length b ≡ heap_size
      → compare (at s.array 0) (at b 0) ≡ true
      → ((c : ℕ) → 0 < c → c < len → at b c ≡ at s.array c)
      → IsRun (record s {
        flex_buffer = s.flex_buffer ++ at s.array 0 ∷ [];
        waterline = len;
        array = heap_again compare nothing b 0 len;
      })
  resume s len b r p l n t e =
      let above : All (λ x. compare x (at s.array 0) ≡ true) s.flex_buffer =
        All-map s.flex_buffer (λ x h. h 0 r.some_left) r.bound in
      let inside : len ≤ length b = omega (arith, r.fits) in
      let again =
        heap_again-HeapFrom compare nothing order 0 len b inside
          (HeapFrom-agrees len s.array b e s.waterline l r.heap) in
      let bounds : (z : T)
          → compare z (at s.array 0) ≡ true
          → IsBound compare nothing z len (heap_again compare nothing b 0 len) =
        λ z i.
          heap_again-IsBound compare nothing z len 0 b inside
            (IsBound-agrees z len s.waterline s.array b i t e l r.heap) in
      record {
        size = again.1 ∙ n;
        some_left = p;
        fits = omega (arith, r.fits);
        heap = again.0;
        ascending = IsAscending-snoc compare s.flex_buffer (at s.array 0) above r.ascending;
        bound =
            All-append _ s.flex_buffer (at s.array 0) (All-map s.flex_buffer bounds above)
              (bounds (at s.array 0) (Sift.Le_refl compare nothing order (at s.array 0)));
      }

  -- The run has ended: its file is ascending, and the next run starts without a heap.
  pub record IsEnded (s ended : Sorter compare nothing) : Type ℓ where
    pub run : List T
    pub files : ended.files ≡ s.files ++ (s.file_off, run) ∷ []
    pub written : run ≡ s.flex_buffer ++ at s.array 0 ∷ []
    pub ascending : IsAscending compare run
    pub file_off : ended.file_off ≡ s.file_off + 1
    pub flex_buffer : ended.flex_buffer ≡ []
    pub waterline : ended.waterline ≡ heap_size
    pub init_flag : ended.init_flag ≡ false

  adjust_up-IsRun :
      (s : Sorter compare nothing) (tuple : T)
      → IsRun s
      → compare tuple (at s.array 0) ≡ false
      → IsRun (heap_adjust compare nothing s tuple)
        × ((heap_adjust compare nothing s tuple).files ≡ s.files)
  adjust_up-IsRun s tuple r e = rw (adjust_up compare nothing s tuple e) (
    resume s s.waterline (set s.array 0 tuple) r r.some_left (omega arith)
        (length-set s.array 0 tuple ∙ r.size)
        (ap (compare (at s.array 0))
            (get_or-set_self s.array 0 tuple nothing (omega (arith, r.size)))
          ∙ order.total tuple (at s.array 0) e)
        (λ c p q. get_or-set_ne s.array 0 c tuple nothing (omega arith)),
    refl,
  )

  adjust_park-IsRun :
      (s : Sorter compare nothing) (tuple : T)
      → IsRun s
      → compare tuple (at s.array 0) ≡ true
      → (s.waterline - 1 == 0) ≡ false
      → IsRun (heap_adjust compare nothing s tuple)
        × ((heap_adjust compare nothing s tuple).files ≡ s.files)
  adjust_park-IsRun s tuple r e f =
      let below = s.waterline - 1 in
      let last = at s.array below in
      let moved = set s.array 0 last in
      let p : 0 < below = ground arith in
      rw (adjust_park compare nothing s tuple e f) (
        resume s below (set moved below tuple) r p (omega arith)
            (length-set moved below tuple ∙ length-set s.array 0 last ∙ r.size)
            (ap (compare (at s.array 0)) (
                get_or-set_ne moved below 0 tuple nothing (omega arith)
                ∙ get_or-set_self s.array 0 last nothing (omega (arith, r.size)))
              ∙ top_least compare nothing order s.waterline s.waterline s.array r.heap below
                  (omega (arith, r.some_left)) (omega (arith, r.some_left)))
            (λ c q l.
              get_or-set_ne moved below c tuple nothing (omega arith)
              ∙ get_or-set_ne s.array 0 c last nothing (omega arith)),
        refl,
      )

  adjust_end-IsEnded :
      (s : Sorter compare nothing) (tuple : T)
      → IsRun s
      → compare tuple (at s.array 0) ≡ true
      → (s.waterline - 1 == 0) ≡ true
      → IsEnded s (heap_adjust compare nothing s tuple)
  adjust_end-IsEnded s tuple r e f = rw (adjust_end compare nothing s tuple e f) (record {
    run = s.flex_buffer ++ at s.array 0 ∷ [];
    files = refl;
    written = refl;
    ascending =
        IsAscending-snoc compare s.flex_buffer (at s.array 0)
          (All-map s.flex_buffer (λ x h. h 0 r.some_left) r.bound) r.ascending;
    file_off = refl;
    flex_buffer = refl;
    waterline = refl;
    init_flag = refl;
  })

  -- `heap_adjust` over a total preorder, while a run is written. If a single tuple of the heap is left
  -- and the new one goes below its top, the run ends: a file of ascending tuples is written under the
  -- next number. Otherwise the run goes on, and no file is written.
  pub heap_adjust-runs :
      (s : Sorter compare nothing) (tuple : T)
      → IsRun s
      → (((s.waterline ≡ 1)
            × (compare tuple (at s.array 0) ≡ true)
            × IsEnded s (heap_adjust compare nothing s tuple))
          ⊎ (((1 < s.waterline) ⊎ (compare tuple (at s.array 0) ≡ false))
              × IsRun (heap_adjust compare nothing s tuple)
              × ((heap_adjust compare nothing s tuple).files ≡ s.files)))
  heap_adjust-runs s tuple r = elim (Bool-cases (compare tuple (at s.array 0))) [
    | inr e ↦ (let u = adjust_up-IsRun s tuple r e in inr (inr e, u.0, u.1))
    | inl e ↦ elim (Bool-cases (s.waterline - 1 == 0)) [
      | inl f ↦ inl (ground (arith, r.some_left), e, adjust_end-IsEnded s tuple r e f)
      | inr f ↦ (let u = adjust_park-IsRun s tuple r e f in inr (inl (ground arith), u.0, u.1))
    ]
  ]

  -- `heap_sort` over a full array makes it ready for a run.
  pub heap_sort-IsRun :
      (s : Sorter compare nothing)
      → length s.array ≡ heap_size
      → s.waterline ≡ heap_size
      → s.flex_buffer ≡ []
      → IsRun (record s { array = heap_sort compare nothing s.array s.waterline })
  heap_sort-IsRun s n w e =
      let inside : s.waterline ≤ length s.array = omega arith in
      record {
        size = (heap_sort-Same compare nothing (λ x. true) s.waterline s.array inside).1 ∙ n;
        some_left = omega arith;
        fits = omega arith;
        heap = heap_sort-HeapFrom compare nothing order s.waterline s.array inside;
        ascending = subst (IsAscending compare) (sym e) tt;
        bound = subst (All _) (sym e) tt;
      }
